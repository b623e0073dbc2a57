-- ===== src/Profile/Removing.antt =====
-- remove_keys of src/toxdata.c on the file that export_keys writes.
use tox_suite.Base.{ℕ, List, [], ◌∷◌}
use tox_suite.Tox.{Tox}

module _ (tox : Tox) where
  -- toxcore after these friends were deleted.
  abbrev pub delete_all : tox.State → List ℕ → tox.State
  delete_all t [] = t
  delete_all t (n ∷ ns) = delete_all (tox.friend_delete t n).1 ns
