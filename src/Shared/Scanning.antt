-- ===== src/Shared/Scanning.antt =====
-- Calls of file_do one after the other, until every file that was found is hashed.
use tox_suite.Base.{
  ℕ, zero, suc, ◌-◌, ◌≤◌, ◌<◌, ◌≡◌, refl, ap, ◌∙◌, ◌⊎◌, inl, inr, true, false, ◌&&◌, Option, none,
  some, List, arith, ◌==◌, Bool-cases, length, get_elem?,
}
use tox_suite.Base.{length-take}
use tox_suite.Base.Results.{on_result}
use tox_suite.Transfer.{FileNode}
use tox_suite.Shared.{
  GenericHash, FileSystem, Shared, is_idle, recheck, adopt, adopt_last, Done, hash_step, file_do,
}
use tox_suite.Shared.Hashes.{HasSoundHashes, hash_step-HasSoundHashes, adopt-HasSoundHashes}
use tox_suite.Base.{sym, [], ◌∷◌, take}
use mathlib.Core.Path.{subst}
use tox_suite.Shared.{path_of}
use tox_suite.Shared.Listed.{IsAmong, names, AreAmong, each-AreAmong, IsAmong-take}
use tox_suite.Shared.Progress.{
  get_elem?_inside, Shrinks, IsSettling, Progress, hash_step-Progress, Adopted, adopt-Adopted,
}

none-IsAmong : (l : List FileNode) → length l ≡ 0 → (p : List ℕ) → ¬ IsAmong p (names l)
none-IsAmong [] e p h = h
none-IsAmong (x ∷ l) e p h = absurd (omega (arith, e))

module _ (hash : GenericHash) (junk : List ℕ) (fs : FileSystem) (dir : List ℕ) where
  -- As many calls of file_do.
  unfoldable pub polls : ℕ → Shared hash → Option (Shared hash)
  polls zero s = some s
  polls (suc n) s = elim (file_do hash junk fs dir s) [ none ↦ none | some r ↦ polls n r.shared ]

  -- Nothing is waiting, nothing is being hashed, and no walk is due.
  pub record IsSettled (s : Shared hash) : Type 0 where
    pub waiting : length s.new_list ≡ 0
    pub hashing : is_idle s.hashing ≡ true
    pub file_recheck : s.file_recheck ≡ false

  -- A path of the shared list or of the list of new files.
  abbrev pub IsKnown : List ℕ → Shared hash → Type 0
  IsKnown p s = IsAmong p (names s.shr_list) ⊎ IsAmong p (names s.new_list)

  abbrev Keeps : Shared hash → Shared hash → Type 0
  Keeps s s' = (p : List ℕ) → IsKnown p s → IsKnown p s'

  -- Some number of calls settles the program, with every known path in the shared list.
  abbrev pub Settles : Shared hash → Type 0
  Settles s =
      (n : ℕ) × (s' : Shared hash) × (polls n s ≡ some s')
      × IsSettled s'
      × HasSoundHashes hash s'
      × ((p : List ℕ) → IsKnown p s → IsAmong p (names s'.shr_list))

  one_more :
      (s : Shared hash) (r : Done hash)
      → file_do hash junk fs dir s ≡ some r
      → Keeps s r.shared
      → Settles r.shared
      → Settles s
  unfolding polls
  one_more s r e keeps (n, s', found, settled, sound, listed) =
      (suc n, s', rw (e, polls) found, settled, sound, λ p h. listed p (keeps p h))

  Progress-Keeps : (s s' : Shared hash) → Progress hash s s' → Keeps s s'
  Progress-Keeps s s' (new_same, shr_same, goes) p (inl h) =
      inl (subst (λ l. IsAmong p (names l)) (sym shr_same) h)
  Progress-Keeps s s' (new_same, shr_same, goes) p (inr h) =
      inr (subst (λ l. IsAmong p (names l)) (sym new_same) h)

  recheck_busy : (s : Shared hash) → is_idle s.hashing ≡ false → recheck hash fs dir s ≡ s
  unfolding recheck
  recheck_busy s busy = rw off refl
    where
      off : (s.file_recheck && length s.new_list == 0 && is_idle s.hashing) ≡ false
      off = ground (arith, busy)

  pub recheck_waiting : (s : Shared hash) → 0 < length s.new_list → recheck hash fs dir s ≡ s
  unfolding recheck
  recheck_waiting s waits = rw off refl
    where
      off : (s.file_recheck && length s.new_list == 0 && is_idle s.hashing) ≡ false
      off = ground (arith, waits)

  file_do_steps :
      (s s' : Shared hash)
      → adopt_last hash junk (recheck hash fs dir s) ≡ some s'
      → file_do hash junk fs dir s ≡ hash_step hash junk fs s'
  unfolding file_do
  file_do_steps s s' e = rw (e, file_do) refl

  adopt_last_busy : (s : Shared hash) → is_idle s.hashing ≡ false → adopt_last hash junk s ≡ some s
  unfolding adopt_last
  adopt_last_busy s busy = rw (busy, adopt_last) refl

  adopt_last_waiting :
      (s : Shared hash) (node : FileNode)
      → is_idle s.hashing ≡ true
      → get_elem? s.new_list (length s.new_list - 1) ≡ some node
      → adopt_last hash junk s ≡ adopt hash junk s node
  unfolding adopt_last
  adopt_last_waiting s node rests e = rw (rests, adopt_last) (rw e refl)

  file_do_busy :
      (s : Shared hash)
      → is_idle s.hashing ≡ false
      → file_do hash junk fs dir s ≡ hash_step hash junk fs s
  file_do_busy s busy =
      file_do_steps s s (ap (adopt_last hash junk) (recheck_busy s busy) ∙ adopt_last_busy s busy)

  -- What is known when at most `most` files wait and nothing is being hashed.
  abbrev Resting : ℕ → Type 0
  Resting most =
      (s : Shared hash)
      → HasSoundHashes hash s
      → is_idle s.hashing ≡ true
      → length s.new_list ≤ most
      → IsSettling hash s
      → Settles s

  -- What is known of a state in which a hashing goes on with less left than in this one.
  abbrev Continues : ℕ → Shared hash → Type 0
  Continues most s =
      (s' : Shared hash)
      → HasSoundHashes hash s'
      → is_idle s'.hashing ≡ false
      → length s'.new_list ≤ most
      → Shrinks hash s.opened s'.opened
      → Settles s'

  -- After a step of the hashing.
  stepped :
      (most : ℕ) (s s' : Shared hash)
      → Resting most
      → HasSoundHashes hash s'
      → length s.new_list ≤ most
      → Progress hash s s'
      → Continues most s
      → Settles s'
  stepped most s s' idle sound few (same, shr_same, inl (ended_now, settling)) onward =
      idle s' sound ended_now (omega (arith, few, ap (λ l. length l) same)) settling
  stepped most s s' idle sound few (same, shr_same, inr (busy, shrinks)) onward =
      onward s' sound busy (omega (arith, few, ap (λ l. length l) same)) shrinks

  -- The step of the hashing that a call makes.
  hash_step-Settles :
      (most : ℕ) (s : Shared hash)
      → Resting most
      → HasSoundHashes hash s
      → is_idle s.hashing ≡ false
      → length s.new_list ≤ most
      → Continues most s
      → (r : Done hash) × (hash_step hash junk fs s ≡ some r) × Keeps s r.shared × Settles r.shared
  hash_step-Settles most s idle sound busy few onward =
      let (r, result, sound') = hash_step-HasSoundHashes hash junk fs s sound in
      let progress : Progress hash s r.shared =
        on_result (λ r. Progress hash s r.shared) (hash_step hash junk fs s) r
          (hash_step-Progress hash junk fs s busy) result in
      (
        r,
        result,
        Progress-Keeps s r.shared progress,
        stepped most s r.shared idle sound' few progress onward,
      )

  -- A hashing that goes on comes to its end, as every block leaves less.
  open-Settles :
      (most k : ℕ) (s : Shared hash) (x : List ℕ × hash.State)
      → Resting most
      → HasSoundHashes hash s
      → is_idle s.hashing ≡ false
      → length s.new_list ≤ most
      → s.opened ≡ some x
      → length x.0 ≤ k
      → Settles s
  open-Settles most zero s x idle sound busy few at small =
      let (r, result, keeps, settles) =
        hash_step-Settles most s idle sound busy few
          (λ s' sound' busy' few' (x', at', less). absurd (omega (arith, less x at, small))) in
      one_more s r (file_do_busy s busy ∙ result) keeps settles
  open-Settles most (suc k) s x idle sound busy few at small =
      let (r, result, keeps, settles) =
        hash_step-Settles most s idle sound busy few (λ s' sound' busy' few' (x', at', less).
          open-Settles most k s' x' idle sound' busy' few' at' (omega (arith, less x at, small))) in
      one_more s r (file_do_busy s busy ∙ result) keeps settles

  -- The first block opens the file.
  onward : (most : ℕ) (s : Shared hash) → Resting most → Continues most s
  onward most s idle s' sound busy few (x', at, less) =
      open-Settles most (length x'.0) s' x' idle sound busy few at (omega arith)

  busy-Settles :
      (most : ℕ) (s : Shared hash)
      → Resting most
      → HasSoundHashes hash s
      → is_idle s.hashing ≡ false
      → length s.new_list ≤ most
      → Settles s
  busy-Settles most s idle sound busy few =
      let (r, result, keeps, settles) =
        hash_step-Settles most s idle sound busy few (onward most s idle) in
      one_more s r (file_do_busy s busy ∙ result) keeps settles

  pub known_settled :
      (s : Shared hash)
      → length s.new_list ≡ 0
      → (p : List ℕ) → IsKnown p s
      → IsAmong p (names s.shr_list)
  known_settled s none_wait p (inl h) = h
  known_settled s none_wait p (inr h) = absurd (none-IsAmong s.new_list none_wait p h)

  settled :
      (s : Shared hash)
      → HasSoundHashes hash s
      → is_idle s.hashing ≡ true
      → length s.new_list ≡ 0
      → IsSettling hash s
      → Settles s
  unfolding polls
  settled s sound idle none_wait settling = (
    0,
    s,
    refl,
    record { waiting = none_wait; hashing = idle; file_recheck = settling none_wait },
    sound,
    known_settled s none_wait,
  )

  Adopted-Keeps :
      (s s' : Shared hash) (node : FileNode)
      → get_elem? s.new_list (length s.new_list - 1) ≡ some node
      → 0 < length s.new_list
      → s'.new_list ≡ take (length s.new_list - 1) s.new_list
      → ((p : List ℕ) → IsAmong p (names s.shr_list) → IsAmong p (names s'.shr_list))
      → IsAmong (path_of node) (names s'.shr_list)
      → Keeps s s'
  Adopted-Keeps s s' node e waits shorter kept added p (inl h) = inl (kept p h)
  Adopted-Keeps s s' node e waits shorter kept added p (inr h) =
      elim (IsAmong-take s.new_list (length s.new_list - 1) node p e (omega (arith, waits)) h) [
        | inl i ↦ inr (subst (λ l. IsAmong p (names l)) (sym shorter) i)
        | inr same ↦ inl (subst (λ q. IsAmong q (names s'.shr_list)) same added)
      ]

  -- With files waiting, the last of them is adopted and its hashing begun.
  waiting-Settles :
      (most : ℕ) (s : Shared hash)
      → Resting most
      → HasSoundHashes hash s
      → is_idle s.hashing ≡ true
      → 0 < length s.new_list
      → length s.new_list ≤ suc most
      → Settles s
  waiting-Settles most s idle sound rests waits few =
      let (node, e) = get_elem?_inside s.new_list (length s.new_list - 1) (omega (arith, waits)) in
      let (s', adopts, sound') = adopt-HasSoundHashes hash junk s node sound in
      let (busy, shorter, kept, added) =
        on_result (Adopted hash s node) (adopt hash junk s node) s' (adopt-Adopted hash junk s node)
          adopts in
      let (r, result, keeps, settles) =
        hash_step-Settles most s' idle sound' busy
          (omega (
            arith,
            few,
            ap (λ l. length l) shorter,
            length-take (length s.new_list - 1) s.new_list (omega arith),
          ))
          (onward most s' idle) in
      one_more s r
        (file_do_steps s s' (
            ap (adopt_last hash junk) (recheck_waiting s waits)
            ∙ adopt_last_waiting s node rests e
            ∙ adopts)
          ∙ result)
        (λ p h. keeps p (Adopted-Keeps s s' node e waits shorter kept added p h)) settles

  idle-Settles : (most : ℕ) → Resting most
  idle-Settles zero s sound rests few settling = settled s sound rests (omega (arith, few)) settling
  idle-Settles (suc most) s sound rests few settling = elim (Bool-cases (length s.new_list == 0)) [
    | inl e ↦ settled s sound rests (ground (arith, e)) settling
    | inr e ↦ waiting-Settles most s (idle-Settles most) sound rests (ground (arith, e)) few
  ]

  pub any_Settles :
      (s : Shared hash)
      → HasSoundHashes hash s
      → (0 < length s.new_list) ⊎ (is_idle s.hashing ≡ false)
      → Settles s
  any_Settles s sound at_work = elim (Bool-cases (is_idle s.hashing)) [
    | inl rests ↦
        idle-Settles (length s.new_list) s sound rests (omega arith)
          (λ e. ground (arith, e, rests, at_work))
    | inr busy ↦
        busy-Settles (length s.new_list) s (idle-Settles (length s.new_list)) sound busy
          (omega arith)
  ]

  -- The files that wait all come into the shared list after finitely many calls of file_do: where a
  -- file waits or is being hashed, and the hashes are sound, some number of calls, none of which is
  -- a fault, leads to a state in which no file waits, none is being hashed and the recheck flag is
  -- off, with sound hashes, and the shared list has the path of every file that it had and of every
  -- file that waited. Whether a file can be opened and so gets its hash does not matter.
  pub file_do_settles :
      (s : Shared hash)
      → HasSoundHashes hash s
      → (0 < length s.new_list) ⊎ (is_idle s.hashing ≡ false)
      → (n : ℕ) × (s' : Shared hash) × (polls n s ≡ some s')
        × IsSettled s'
        × HasSoundHashes hash s'
        × AreAmong (names s.shr_list) (names s'.shr_list)
        × AreAmong (names s.new_list) (names s'.shr_list)
  file_do_settles s sound at_work =
      let (n, s', found, done, sound', listed) = any_Settles s sound at_work in
      (
        n,
        s',
        found,
        done,
        sound',
        each-AreAmong (names s.shr_list) (names s'.shr_list) (λ p h. listed p (inl h)),
        each-AreAmong (names s.new_list) (names s'.shr_list) (λ p h. listed p (inr h)),
      )
