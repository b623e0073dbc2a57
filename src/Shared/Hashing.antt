-- ===== src/Shared/Hashing.antt =====
-- The hashing of a shared file, one block of 64 KiB for each call.
use tox_suite.Base.{
  ℕ, zero, suc, ◌*◌, ◌≤◌, ◌<◌, ◌≡◌, refl, sym, ap, ◌∙◌, Option, none, some, List, [], ◌∷◌, ◌++◌,
  arith, length, drop, length-drop,
}
use mathlib.Core.Path.{subst}
use tox_suite.Base.{◌≢◌, length-append, take_all, drop_all}
use tox_suite.Shared.{
  GenericHash, FileSystem, hashing_bufsize, block, Checksum, failed, complete, hashing_on,
  read_block, file_checksumcalc_noblock,
}

module _ (hash : GenericHash) where
  abbrev unless_ended :
      Checksum × Option (List ℕ × hash.State)
      → (Option (List ℕ × hash.State) → Option Checksum)
      → Option Checksum
  unless_ended (failed, f) again = some failed
  unless_ended (complete h, f) again = some (complete h)
  unless_ended (hashing_on n, f) again = again f

  -- The calls for one file until the hashing ends, at most `fuel` of them; `none` is too little
  -- fuel.
  abbrev pub checksum_all :
      ℕ → List ℕ → FileSystem → List ℕ → Option (List ℕ × hash.State) → Option Checksum
  checksum_all zero junk fs path f = none
  checksum_all (suc fuel) junk fs path f =
      unless_ended (file_checksumcalc_noblock hash junk fs path f) (checksum_all fuel junk fs path)

  -- The first call opens the file.
  opens :
      (junk : List ℕ) (fs : FileSystem) (path bytes : List ℕ)
      → fs.fopen path ≡ some bytes
      → file_checksumcalc_noblock hash junk fs path none
        ≡ file_checksumcalc_noblock hash junk fs path (some (bytes, hash.init))
  unfolding file_checksumcalc_noblock
  opens junk fs path bytes found = rw (found, file_checksumcalc_noblock)

  blocks_end :
      (fuel : ℕ) (junk : List ℕ) (fs : FileSystem) (path rest : List ℕ) (state : hash.State)
      → length rest ≤ fuel * hashing_bufsize
      → (h : List ℕ) × (checksum_all (suc fuel) junk fs path (some (rest, state))
          ≡ some (complete h))
  unfolding file_checksumcalc_noblock read_block
  blocks_end fuel junk fs path [] state enough = (hash.final state, refl)
  blocks_end zero junk fs path (b ∷ rest) state enough = ground arith
  blocks_end (suc fuel) junk fs path (b ∷ rest) state enough =
      blocks_end fuel junk fs path (drop hashing_bufsize (b ∷ rest))
        (hash.update state (block junk (b ∷ rest)))
        (rw (length-drop hashing_bufsize (b ∷ rest)) (omega (arith, enough)))

  -- A file that can be opened is hashed completely by one call for each block and one more.
  pub checksum_all_ends :
      (fuel : ℕ) (junk : List ℕ) (fs : FileSystem) (path bytes : List ℕ)
      → fs.fopen path ≡ some bytes
      → length bytes ≤ fuel * hashing_bufsize
      → (h : List ℕ) × (checksum_all (suc fuel) junk fs path none ≡ some (complete h))
  checksum_all_ends fuel junk fs path bytes found enough =
      subst
        (λ c. (h : List ℕ) × (unless_ended c (checksum_all fuel junk fs path) ≡ some (complete h)))
        (sym (opens junk fs path bytes found)) (blocks_end fuel junk fs path bytes hash.init enough)

  -- What a call leaves after the taken bytes.
  abbrev after : List ℕ → hash.State → List ℕ → List ℕ → Checksum × Option (List ℕ × hash.State)
  after junk state taken left = (
    hashing_on (length taken),
    some (left, hash.update state (taken ++ drop (length taken) junk)),
  )

  read_short :
      (junk : List ℕ) (b : ℕ) (bytes : List ℕ) (state : hash.State)
      → length (b ∷ bytes) < hashing_bufsize
      → read_block hash junk (b ∷ bytes, state) ≡ after junk state (b ∷ bytes) []
  unfolding read_block
  read_short junk b bytes state short =
      ap (λ taken. after junk state taken (drop hashing_bufsize (b ∷ bytes)))
        (take_all hashing_bufsize (b ∷ bytes) (omega (arith, short)))
      ∙ ap (after junk state (b ∷ bytes))
          (drop_all hashing_bufsize (b ∷ bytes) (omega (arith, short)))

  -- A file that is not empty and shorter than a block is hashed together with what the buffer of
  -- 65536 bytes held behind it: the hash is that of a text of 65536 bytes that begins with the
  -- file, and is not the file.
  pub checksum_all_padded :
      (junk : List ℕ) (fs : FileSystem) (path : List ℕ) (b : ℕ) (bytes : List ℕ)
      → length junk ≡ hashing_bufsize
      → fs.fopen path ≡ some (b ∷ bytes)
      → length (b ∷ bytes) < hashing_bufsize
      → (padded : List ℕ) × (checksum_all 2 junk fs path none
          ≡ some (complete (hash.final (hash.update hash.init padded))))
        × (padded ≡ (b ∷ bytes) ++ drop (length (b ∷ bytes)) junk)
        × (length padded ≡ hashing_bufsize)
        × (padded ≢ (b ∷ bytes))
  unfolding file_checksumcalc_noblock read_block
  checksum_all_padded junk fs path b bytes sized found short =
      let file = b ∷ bytes in
      let size : length (file ++ drop (length file) junk) ≡ hashing_bufsize = omega (
        arith,
        length-append file (drop (length file) junk),
        length-drop (length file) junk,
        sized,
        short,
      ) in
      (
        file ++ drop (length file) junk,
        ap (λ c. unless_ended c (checksum_all 1 junk fs path))
            (opens junk fs path file found ∙ read_short junk b bytes hash.init short),
        refl,
        size,
        λ e. omega (arith, size, short, ap (λ l. length l) e),
      )
