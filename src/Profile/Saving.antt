-- ===== src/Profile/Saving.antt =====
-- load_profile of src/toxdata.c on the file that save_profile writes.
use tox_suite.Base.{
  ℕ, suc, ◌+◌, ◌≡◌, refl, ap, ◌∙◌, inr, Bool, true, false, Option, none, some, List, [], ◌∷◌, ◌++◌,
  arith, ltb, length, take, drop,
}
use tox_suite.Base.{take_all}
use tox_suite.Base.Int.{pos}
use tox_suite.Tox.{Tox}
use tox_suite.Transfer.Receive.{store_self, Disk, store}
use tox_suite.Profile.{PassCrypt, exit_failure, start, load_profile, save_profile}

-- What an encryption promises: it is recognised, longer by a fixed number of bytes, and undone by the
-- same passphrase.
pub record IsPassCrypt (crypt : PassCrypt) : Type 0 where
  pub marks :
      (salt plain pass c : List ℕ)
      → crypt.encrypt salt plain pass ≡ inr c
      → crypt.is_encrypted c ≡ true
  pub extends :
      (salt plain pass c : List ℕ)
      → crypt.encrypt salt plain pass ≡ inr c
      → length c ≡ length plain + crypt.extra_length
  pub decrypts :
      (salt plain pass c : List ℕ)
      → crypt.encrypt salt plain pass ≡ inr c
      → crypt.decrypt c pass ≡ some plain

not_short : (n : ℕ) → ltb n n ≡ false
not_short n = ground arith

suc_plus : (m n : ℕ) → suc m + n ≡ suc (m + n)
suc_plus m n = omega arith

take_junk :
    (n : ℕ) (clear junk : List ℕ) → take (length clear + n) (clear ++ junk) ≡ clear ++ take n junk
take_junk n [] junk = ap (λ k. take k junk) (omega arith)
take_junk n (c ∷ clear) junk =
    ap (λ k. take k (c ∷ (clear ++ junk))) (suc_plus (length clear) n)
    ∙ ap (◌∷◌ c) (take_junk n clear junk)

module _ (crypt : PassCrypt) (tox : Tox) (new : List ℕ → Option tox.State × Bool)
    (get_savedata : tox.State → List ℕ) (writable : List ℕ → Bool) where
  -- A file of a size that stat tells is read in whole.
  pub load_plain :
      (fopen : List ℕ → Option (List ℕ)) (stat : List ℕ → Option ℕ) (old : Option tox.State)
      (junk name bytes : List ℕ) (passphrase : Option (List ℕ))
      → fopen name ≡ some bytes
      → stat name ≡ some (length bytes)
      → crypt.is_encrypted bytes ≡ false
      → load_profile crypt tox new fopen stat old junk name passphrase ≡ start crypt tox new bytes
  unfolding load_profile
  load_plain fopen stat old junk name bytes passphrase f s e =
      rw (f, load_profile)
        (rw s (rw (not_short (length bytes), take_all (length bytes) bytes (omega arith), e) refl))

  load_encrypted :
      (fopen : List ℕ → Option (List ℕ)) (stat : List ℕ → Option ℕ) (old : Option tox.State)
      (junk name bytes pass clear : List ℕ)
      → fopen name ≡ some bytes
      → stat name ≡ some (length bytes)
      → crypt.is_encrypted bytes ≡ true
      → crypt.decrypt bytes pass ≡ some clear
      → load_profile crypt tox new fopen stat old junk name (some pass)
        ≡ start crypt tox new (take (length bytes) (clear ++ drop (length clear) junk))
  unfolding load_profile
  load_encrypted fopen stat old junk name bytes pass clear f s e d =
      rw (f, load_profile)
        (rw s (
          rw (not_short (length bytes), take_all (length bytes) bytes (omega arith), e)
            (rw d refl)))

  -- Without a passphrase a saved profile is loaded as it was: where the file can be written, stat tells
  -- its size and the saved data do not look encrypted, save_profile returns 0 and load_profile gives
  -- tox_new exactly these data, whatever passphrase it gets.
  pub load_profile-save_profile :
      (salt : List ℕ) (disk : Disk) (t : tox.State) (name : List ℕ) (stat : List ℕ → Option ℕ)
      (old : Option tox.State) (junk : List ℕ) (passphrase : Option (List ℕ))
      → writable name ≡ true
      → stat name ≡ some (length (get_savedata t))
      → crypt.is_encrypted (get_savedata t) ≡ false
      → (disk' : Disk) × (save_profile crypt tox get_savedata writable salt disk t name none
          ≡ (pos 0, disk'))
        × (load_profile crypt tox new disk' stat old junk name passphrase
            ≡ start crypt tox new (get_savedata t))
  unfolding save_profile
  load_profile-save_profile salt disk t name stat old junk passphrase w s e = (
    store disk name (get_savedata t),
    rw w refl,
    load_plain (store disk name (get_savedata t)) stat old junk name (get_savedata t) passphrase
        (store_self disk name (get_savedata t)) s e,
  )

  -- With a passphrase, save_profile returns 0 where the encryption succeeds and the file can be written;
  -- load_profile with the same passphrase then gives tox_new the saved data followed by as many
  -- indeterminate bytes as an encryption adds, since it passes on the size of the file.
  pub load_profile-save_profile_encrypted :
      IsPassCrypt crypt
      → (salt : List ℕ) (disk : Disk) (t : tox.State) (name : List ℕ) (stat : List ℕ → Option ℕ)
        (old : Option tox.State) (junk pass c : List ℕ)
      → writable name ≡ true
      → crypt.encrypt salt (get_savedata t) pass ≡ inr c
      → stat name ≡ some (length c)
      → (disk' : Disk) × (save_profile crypt tox get_savedata writable salt disk t name (some pass)
          ≡ (pos 0, disk'))
        × (load_profile crypt tox new disk' stat old junk name (some pass)
            ≡ start crypt tox new
                (get_savedata t ++ take crypt.extra_length (drop (length (get_savedata t)) junk)))
  unfolding save_profile
  load_profile-save_profile_encrypted l salt disk t name stat old junk pass c w e s =
      let clear = get_savedata t in
      (
        store disk name c,
        rw (e, save_profile) (rw w refl),
        load_encrypted (store disk name c) stat old junk name c pass clear (store_self disk name c)
              s (l.marks salt clear pass c e) (l.decrypts salt clear pass c e)
            ∙ rw
                (
                  l.extends salt clear pass c e,
                  take_junk crypt.extra_length clear (drop (length clear) junk),
                )
                refl,
      )

  -- A profile that is encrypted is not loaded without its passphrase: load_profile fails and leaves the
  -- client as it was, when none is given and when decryption refuses the one that is given.
  pub load_profile_refuses :
      (fopen : List ℕ → Option (List ℕ)) (stat : List ℕ → Option ℕ) (old : Option tox.State)
      (junk name bytes wrong : List ℕ)
      → fopen name ≡ some bytes
      → stat name ≡ some (length bytes)
      → crypt.is_encrypted bytes ≡ true
      → crypt.decrypt bytes wrong ≡ none
      → (load_profile crypt tox new fopen stat old junk name none ≡ (exit_failure, old))
        × (load_profile crypt tox new fopen stat old junk name (some wrong) ≡ (exit_failure, old))
  unfolding load_profile
  load_profile_refuses fopen stat old junk name bytes wrong f s e d = (
    rw (f, load_profile)
        (rw s (rw (not_short (length bytes), take_all (length bytes) bytes (omega arith), e) refl)),
    rw (f, load_profile)
        (rw s (
          rw (not_short (length bytes), take_all (length bytes) bytes (omega arith), e)
            (rw d refl))),
  )
