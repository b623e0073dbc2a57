-- ===== src/Misc/Stream.antt =====
-- toxstream_write of src/misc.c: a text for a stream is sent to a friend in messages.
use tox_suite.Base.{
  length-take, ℕ, zero, suc, ◌+◌, ◌≤◌, ◌<◌, ◌≡◌, refl, ap, ◌∙◌, inl, inr, true, false, List, [],
  ◌∷◌, ◌++◌, arith, ltb, ◌==◌, if◌then◌else◌, Bool-cases, length, take, drop, All, take-append-drop,
  length-drop,
}
use tox_suite.Tox.{Tox}

-- `limit` is TOX_MAX_MESSAGE_LENGTH.
module _ (tox : Tox) (limit : ℕ) where
  abbrev pub piece : List ℕ → ℕ
  piece rest = if ltb limit (length rest) then limit else length rest

  -- The loop, from an offset on: what it returns and toxcore. An error of toxcore ends it.
  unfoldable pub write_from : ℕ → tox.State → ℕ → List ℕ → ℕ → ℕ × tox.State
  write_from zero t friend_number rest offset = (offset, t)
  write_from (suc fuel) t friend_number rest offset =
      if length rest == 0
      then (offset, t)
      else (let len = piece rest in
          let (sent, t') = tox.friend_send_message t friend_number (take len rest) in
          elim sent [
            | true ↦ write_from fuel t' friend_number (drop len rest) (offset + len)
            | false ↦ (0, t')
          ])

  unfoldable pub toxstream_write : tox.State → ℕ → List ℕ → ℕ × tox.State
  unfolding write_from
  toxstream_write t friend_number message =
      write_from (length message + 1) t friend_number message 0

  -- toxcore after these messages.
  abbrev pub send_all : tox.State → ℕ → List (List ℕ) → tox.State
  send_all t friend_number [] = t
  send_all t friend_number (m ∷ ms) =
      send_all (tox.friend_send_message t friend_number m).1 friend_number ms

  abbrev pub concat : List (List ℕ) → List ℕ
  concat [] = []
  concat (m ∷ ms) = m ++ concat ms

  piece_lem :
      (rest : List ℕ)
      → 0 < limit
      → 0 < length rest
      → (0 < piece rest) × (piece rest ≤ limit) × (piece rest ≤ length rest)
  piece_lem rest l h = elim (Bool-cases (ltb limit (length rest))) [
    | inl e ↦ rw e (ground (arith, e))
    | inr e ↦ rw e (ground (arith, e))
  ]

  write_from-step :
      (fuel : ℕ) (t : tox.State) (n : ℕ) (rest : List ℕ) (offset : ℕ)
      → 0 < length rest
      → (tox.friend_send_message t n (take (piece rest) rest)).0 ≡ true
      → write_from (suc fuel) t n rest offset
        ≡ write_from fuel
            (tox.friend_send_message t n (take (piece rest) rest)).1
            n
            (drop (piece rest) rest)
            (offset + piece rest)
  unfolding write_from
  write_from-step fuel t n rest offset h ok = rw (not-empty, write_from) (rw ok refl)
    where
      not-empty : (length rest == 0) ≡ false
      not-empty = ground (arith, h)

  -- While friend n hears, toxcore takes a message to it that is neither empty nor too long, and the
  -- friend still hears afterwards.
  abbrev pub IsHeard : ℕ → (tox.State → Type 0) → Type 0
  IsHeard n Hears =
      (t : tox.State) (m : List ℕ)
      → Hears t
      → 0 < length m
      → length m ≤ limit
      → ((tox.friend_send_message t n m).0 ≡ true) × Hears (tox.friend_send_message t n m).1

  write_from-all :
      (n : ℕ) (Hears : tox.State → Type 0)
      → 0 < limit
      → IsHeard n Hears
      → (fuel : ℕ) (t : tox.State) (rest : List ℕ) (offset : ℕ) → Hears t
      → length rest < fuel
      → (ms : List (List ℕ)) × (concat ms ≡ rest)
        × All (λ m. (0 < length m) × (length m ≤ limit)) ms
        × (write_from fuel t n rest offset ≡ (offset + length rest, send_all t n ms))
  write_from-all n Hears l ok zero t rest offset hears h = absurd (omega arith)
  write_from-all n Hears l ok (suc fuel) t [] offset hears h =
      ([], refl, tt, unfold write_from in ap (λ k. (k, t)) (omega arith))
  write_from-all n Hears l ok (suc fuel) t (c ∷ cs) offset hears h =
      let rest = c ∷ cs in
      let len = piece rest in
      let bounds = piece_lem rest l (omega arith) in
      let (went, still) =
        ok t (take len rest) hears (omega (arith, bounds, length-take len rest))
          (omega (arith, bounds, length-take len rest)) in
      let sent = (tox.friend_send_message t n (take len rest)).1 in
      let (ms, joined, sizes, written) =
        write_from-all n Hears l ok fuel sent (drop len rest) (offset + len) still
          (omega (arith, bounds, length-drop len rest, h)) in
      (
        take len rest ∷ ms,
        ap (λ r. take len rest ++ r) joined ∙ take-append-drop len rest,
        (omega (arith, bounds, length-take len rest), sizes),
        write_from-step fuel t n rest offset (omega arith) went
            ∙ written
            ∙ ap (λ k. (k, send_all sent n ms)) (omega (arith, bounds, length-drop len rest)),
      )

  -- A text that is written to the stream reaches the friend whole and in order: where the friend
  -- hears and toxcore's limit is not 0, the text is sent as messages of at most
  -- the limit's length, none empty, which make it up one after another, and the length of the text
  -- is returned.
  pub toxstream_write_lem :
      (n : ℕ) (Hears : tox.State → Type 0)
      → 0 < limit
      → IsHeard n Hears
      → (t : tox.State) (message : List ℕ) → Hears t
      → (ms : List (List ℕ)) × (concat ms ≡ message)
        × All (λ m. (0 < length m) × (length m ≤ limit)) ms
        × (toxstream_write t n message ≡ (length message, send_all t n ms))
  unfolding toxstream_write
  toxstream_write_lem n Hears l ok t message hears =
      let (ms, joined, sizes, written) =
        write_from-all n Hears l ok (length message + 1) t message 0 hears (omega arith) in
      (ms, joined, sizes, written ∙ ap (λ k. (k, send_all t n ms)) (omega arith))

  write_from_refused :
      (fuel : ℕ) (t : tox.State) (n c : ℕ) (cs : List ℕ) (offset : ℕ)
      → ((m : List ℕ) → tox.friend_send_message t n m ≡ (false, t))
      → (write_from (suc fuel) t n (c ∷ cs) offset).1 ≡ t
  unfolding write_from
  write_from_refused fuel t n c cs offset refused =
      ground (arith, refused (take (piece (c ∷ cs)) (c ∷ cs)))

  -- While toxcore refuses messages and stays as it is, nothing is sent.
  pub toxstream_write_refused :
      (t : tox.State) (n c : ℕ) (cs : List ℕ)
      → ((m : List ℕ) → tox.friend_send_message t n m ≡ (false, t))
      → (toxstream_write t n (c ∷ cs)).1 ≡ t
  unfolding toxstream_write
  toxstream_write_refused t n c cs refused =
      let fuel : length (c ∷ cs) + 1 ≡ suc (length (c ∷ cs)) = omega arith in
      ap (λ k. (write_from k t n (c ∷ cs) 0).1) fuel
      ∙ write_from_refused (length (c ∷ cs)) t n c cs 0 refused
