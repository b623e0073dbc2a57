-- ===== src/Profile/Keys.antt =====
-- export_keys and import_keys of src/toxdata.c.
use tox_suite.Base.{
  All-append, ℕ, zero, suc, ◌*◌, ◌≡◌, refl, sym, ap, ◌∙◌, ◌≢◌, inl, inr, Bool, true, false, Option,
  none, some, List, [], ◌∷◌, ◌++◌, map, arith, ◌==◌, ==_iff, Bool-cases, Option-cases, length, All,
  length-append, eq_bytes_refl,
}
use mathlib.Core.Path.{subst}
use mathlib.Core.List.{append-nil, append_assoc}
use tox_suite.Base.Entries.{modify}
use tox_suite.Base.Ordered.{AtLeast, IsSorted}
use tox_suite.Base.Texts.{c_string, IsText, c_string_lem}
use tox_suite.Sodium.{Sodium}
use tox_suite.Tox.{Tox}
use tox_suite.Friend.{FriendInfo, number_of, tox_public_key_size, friend_info_update}
use tox_suite.Friend.Registry.{friend_info_add_entry-IsSorted}
use tox_suite.Transfer.Receive.{Disk, store}
use tox_suite.Profile.{
  key_lines, export_keys, lines_onto, is_key_line, import_key, import_lines, import_keys,
}

-- A key in hexadecimal: 64 bytes, no terminator and no newline.
pub record IsHex (s : List ℕ) : Type 0 where
  pub text : IsText s
  pub size : length s ≡ tox_public_key_size * 2
  pub one_line : All (λ c. c ≢ 10) s

abbrev pub HasHexKeys : List FriendInfo → Type 0
HasHexKeys = All (λ f. IsHex f.tox_id_hex)

abbrev pub key_line : FriendInfo → List ℕ
key_line f = f.tox_id_hex ++ 10 ∷ []

lines_onto-other :
    (done : List ℕ) (c : ℕ) (s : List ℕ)
    → c ≢ 10
    → lines_onto done (c ∷ s) ≡ lines_onto (done ++ c ∷ []) s
lines_onto-other done c s h = rw (differs, lines_onto) refl
  where
    differs : (c == 10) ≡ false
    differs = ground (arith, h)

lines_onto-line :
    (done s rest : List ℕ)
    → All (λ c. c ≢ 10) s
    → lines_onto done (s ++ 10 ∷ rest) ≡ ((done ++ s) ++ 10 ∷ []) ∷ lines_onto [] rest
lines_onto-line done [] rest h = rw (append-nil done) refl
lines_onto-line done (c ∷ s) rest (h, hs) =
    lines_onto-other done c (s ++ 10 ∷ rest) h
    ∙ lines_onto-line (done ++ c ∷ []) s rest hs
    ∙ ap (λ l. (l ++ 10 ∷ []) ∷ lines_onto [] rest) (append_assoc done (c ∷ []) s)

-- The lines of an exported file are the keys.
pub lines-key_lines :
    (friends_info : List FriendInfo)
    → HasHexKeys friends_info
    → lines_onto [] (key_lines friends_info) ≡ map key_line friends_info
unfolding key_lines
lines-key_lines [] h = refl
lines-key_lines (f ∷ friends_info) (h, hs) = rw (c_string_lem f.tox_id_hex h.text) (
    lines_onto-line [] f.tox_id_hex (key_lines friends_info) h.one_line
    ∙ ap (◌∷◌ (key_line f)) (lines-key_lines friends_info hs))

pub key_line-IsText : (f : FriendInfo) → IsHex f.tox_id_hex → c_string (key_line f) ≡ key_line f
key_line-IsText f h =
    c_string_lem (key_line f) (All-append (λ c. c ≢ 0) f.tox_id_hex (10 ∷ []) h.text (omega arith))

pub is_key_line_lem : (f : FriendInfo) → IsHex f.tox_id_hex → is_key_line (key_line f) ≡ true
is_key_line_lem f h =
    rw (key_line-IsText f h)
      ((==_iff _ _).1 (omega (arith, length-append f.tox_id_hex (10 ∷ []), h.size)))

module _ (sodium : Sodium) (tox : Tox) where
  -- toxcore after these keys were added.
  abbrev pub add_keys : tox.State → List (List ℕ) → tox.State
  add_keys t [] = t
  add_keys t (k ∷ keys) = add_keys (tox.friend_add_norequest t k).1 keys

  import_key-added :
      (fresh : FriendInfo) (t : tox.State) (friends_info : List FriendInfo) (line : List ℕ)
      → is_key_line line ≡ true
      → (import_key sodium tox fresh t friends_info line).0
        ≡ (tox.friend_add_norequest t (sodium.hex2bin (c_string line))).1
  unfolding import_key
  import_key-added fresh t friends_info line h =
      rw h (elim (Option-cases (tox.friend_add_norequest t (sodium.hex2bin (c_string line))).0) [
        | inl e ↦ rw e refl
        | inr (n, e) ↦ rw e refl
      ])

  import_key-State :
      (fresh : FriendInfo) (t : tox.State) (friends_info : List FriendInfo) (f : FriendInfo)
      → IsHex f.tox_id_hex
      → (import_key sodium tox fresh t friends_info (key_line f)).0
        ≡ (tox.friend_add_norequest t (sodium.hex2bin (key_line f))).1
  import_key-State fresh t friends_info f h =
      import_key-added fresh t friends_info (key_line f) (is_key_line_lem f h)
      ∙ ap (λ line. (tox.friend_add_norequest t (sodium.hex2bin line)).1) (key_line-IsText f h)

  import_keys-lines :
      (fopen : List ℕ → Option (List ℕ)) (fresh : FriendInfo) (t : tox.State)
      (friends_info : List FriendInfo) (name bytes : List ℕ)
      → fopen name ≡ some bytes
      → (let r = import_lines sodium tox fresh t friends_info (lines_onto [] bytes) in
          import_keys sodium tox fopen fresh t friends_info name ≡ (true, r.0, r.1))
  unfolding import_keys
  import_keys-lines fopen fresh t friends_info name bytes e = rw (e, import_keys) refl

  import_lines-State :
      (fresh : FriendInfo) (t : tox.State) (friends_info : List FriendInfo) (fs : List FriendInfo)
      → All (λ f. IsHex f.tox_id_hex × (sodium.hex2bin (key_line f) ≡ f.tox_id_bin)) fs
      → (import_lines sodium tox fresh t friends_info (map key_line fs)).0
        ≡ add_keys t (map (λ f. f.tox_id_bin) fs)
  unfolding import_lines
  import_lines-State fresh t friends_info [] h = refl
  import_lines-State fresh t friends_info (f ∷ fs) ((h, bin), hs) =
      let r = import_key sodium tox fresh t friends_info (key_line f) in
      import_lines-State fresh r.0 r.1 fs hs
      ∙ ap (λ s. add_keys s (map (λ f. f.tox_id_bin) fs))
          (import_key-State fresh t friends_info f h ∙ rw bin refl)

  -- Exporting the keys of a list of friends and importing the file adds to toxcore the binary key of each
  -- friend, in the order of the list, and both calls succeed: where the file can be written, each key
  -- has its 64 hexadecimal digits and sodium_hex2bin reads the binary key from them and a newline.
  pub import_keys-export_keys :
      (writable : List ℕ → Bool) (disk : Disk) (name : List ℕ) (fs : List FriendInfo)
      → writable name ≡ true
      → All (λ f. IsHex f.tox_id_hex × (sodium.hex2bin (key_line f) ≡ f.tox_id_bin)) fs
      → (fresh : FriendInfo) (t : tox.State) (friends_info : List FriendInfo)
      → (disk' : Disk) × (export_keys writable disk name fs ≡ (true, disk'))
        × ((import_keys sodium tox disk' fresh t friends_info name).0 ≡ true)
        × ((import_keys sodium tox disk' fresh t friends_info name).1
            ≡ add_keys t (map (λ f. f.tox_id_bin) fs))
  unfolding export_keys
  import_keys-export_keys writable disk name fs w h fresh t friends_info = (
    store disk name (key_lines fs),
    rw w refl,
    ap (λ r. r.0) (read fs),
    ap (λ r. r.1) (read fs)
        ∙ ap (λ lines. (import_lines sodium tox fresh t friends_info lines).0)
            (lines-key_lines fs (hex_of fs h))
        ∙ import_lines-State fresh t friends_info fs h,
  )
    where
      read :
          (fs : List FriendInfo)
          → (let r = import_lines sodium tox fresh t friends_info (lines_onto [] (key_lines fs)) in
              import_keys sodium tox (store disk name (key_lines fs)) fresh t friends_info name
              ≡ (true, r.0, r.1))
      read fs =
          import_keys-lines (store disk name (key_lines fs)) fresh t friends_info name
            (key_lines fs) (rw (eq_bytes_refl name) refl)

      hex_of :
          (fs : List FriendInfo)
          → All (λ f. IsHex f.tox_id_hex × (sodium.hex2bin (key_line f) ≡ f.tox_id_bin)) fs
          → HasHexKeys fs
      hex_of [] h = tt
      hex_of (f ∷ fs) ((h, bin), hs) = (h, hex_of fs hs)

  AtLeast-modify :
      (n : ℕ) (g : FriendInfo → FriendInfo) (xs : List FriendInfo) (i : ℕ)
      → ((x : FriendInfo) → number_of (g x) ≡ number_of x)
      → AtLeast number_of n xs
      → AtLeast number_of n (modify i g xs)
  AtLeast-modify n g [] i keep a = tt
  AtLeast-modify n g (x ∷ xs) zero keep a = (rw (keep x) (a.0), a.1)
  AtLeast-modify n g (x ∷ xs) (suc i) keep a = (a.0, AtLeast-modify n g xs i keep a.1)

  modify-IsSorted :
      (g : FriendInfo → FriendInfo) (xs : List FriendInfo) (i : ℕ)
      → ((x : FriendInfo) → number_of (g x) ≡ number_of x)
      → IsSorted number_of xs
      → IsSorted number_of (modify i g xs)
  modify-IsSorted g [] i keep s = tt
  modify-IsSorted g (x ∷ xs) zero keep s = (rw (keep x) (s.0), s.1)
  modify-IsSorted g (x ∷ xs) (suc i) keep s =
      (AtLeast-modify (number_of x) g xs i keep s.0, modify-IsSorted g xs i keep s.1)

  import_key-IsSorted :
      (fresh : FriendInfo) (t : tox.State) (friends_info : List FriendInfo) (line : List ℕ)
      → IsSorted number_of friends_info
      → IsSorted number_of (import_key sodium tox fresh t friends_info line).1
  unfolding import_key
  import_key-IsSorted fresh t friends_info line s = elim (Bool-cases (is_key_line line)) [
    | inl e ↦
        rw e (elim (Option-cases (tox.friend_add_norequest t (sodium.hex2bin (c_string line))).0) [
          | inl r ↦ rw r s
          | inr (n, r) ↦ rw r (
              modify-IsSorted _ _ _ (λ x. unfold friend_info_update in refl)
                (friend_info_add_entry-IsSorted fresh friends_info n s))
        ])
    | inr e ↦ rw e s
  ]

  import_lines-IsSorted :
      (fresh : FriendInfo) (t : tox.State) (friends_info : List FriendInfo) (lines : List (List ℕ))
      → IsSorted number_of friends_info
      → IsSorted number_of (import_lines sodium tox fresh t friends_info lines).1
  unfolding import_lines
  import_lines-IsSorted fresh t friends_info [] s = s
  import_lines-IsSorted fresh t friends_info (line ∷ lines) s =
      let r = import_key sodium tox fresh t friends_info line in
      import_lines-IsSorted fresh r.0 r.1 lines (import_key-IsSorted fresh t friends_info line s)

  -- Whatever the file of keys holds, importing it keeps the list of friends ordered by their numbers.
  pub import_keys-IsSorted :
      (fopen : List ℕ → Option (List ℕ)) (fresh : FriendInfo) (t : tox.State)
      (friends_info : List FriendInfo) (name : List ℕ)
      → IsSorted number_of friends_info
      → IsSorted number_of (import_keys sodium tox fopen fresh t friends_info name).2
  unfolding import_keys
  import_keys-IsSorted fopen fresh t friends_info name s = elim (Option-cases (fopen name)) [
    | inl e ↦ subst (λ r. IsSorted number_of r.2) (sym (missing e)) s
    | inr (bytes, e) ↦
        subst (λ r. IsSorted number_of r.2)
          (sym (import_keys-lines fopen fresh t friends_info name bytes e))
          (import_lines-IsSorted fresh t friends_info (lines_onto [] bytes) s)
  ]
    where
      missing :
          fopen name ≡ none
          → import_keys sodium tox fopen fresh t friends_info name ≡ (false, t, friends_info)
      missing e = rw (e, import_keys) refl
