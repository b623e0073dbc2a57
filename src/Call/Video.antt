-- ===== src/Call/Video.antt =====
-- video_receive_frame of src/call.c: a frame of a caller is sent back, its planes without their
-- padding.
use tox_suite.Base.{
  leb, ◌^◌, ◌<◌, ℕ, zero, suc, ◌+◌, ◌*◌, ◌/◌, ◌≤◌, ◌≡◌, refl, sym, ap, ◌∙◌, false, ◌||◌, Option,
  none, some, List, [], ◌∷◌, ◌++◌, arith, ltb, if◌then◌else◌, length, take, drop, length-append,
  length-drop,
}
use tox_suite.Base.{take-append, drop-append, length-take, drop_all}
use mathlib.Core.List.{append_assoc, append-nil}
use native.Mathlib.Nat.{mul-le-mul_right}
use tox_suite.Base.Results.{◌>>=◌}
use tox_suite.Base.Int.{ℤ, pos, negsuc}

-- abs
abbrev pub abs : ℤ → ℕ
abs (pos n) = n
abs (negsuc n) = n + 1

-- memcpy (&dest[at], &src[start], n); out of a block it is a fault.
unfoldable pub copy : ℕ → List ℕ → ℕ → ℕ → List ℕ → Option (List ℕ)
copy start src at n dest =
    if ltb (length src) (start + n) || ltb (length dest) (at + n)
    then none
    else some (take at dest ++ (take n (drop start src) ++ drop (at + n) dest))

-- A plane: its bytes and its stride.
pub record Plane : Type 0 where
  pub bytes : List ℕ
  pub stride : ℕ

-- The loop over the rows from h on; a row of the destination is at the index that the code
-- computes.
unfoldable pub copy_rows : (ℕ → ℕ) → ℕ → Plane → ℕ → ℕ → List ℕ → Option (List ℕ)
copy_rows index n src h zero dest = some dest
copy_rows index n src h (suc left) dest = do
  dest' ← copy (h * src.stride) src.bytes (index h) n dest
  copy_rows index n src (h + 1) left dest'

-- The rows without their padding.
unfoldable pub rows : ℕ → Plane → ℕ → ℕ → List ℕ
rows n src h zero = []
rows n src h (suc left) = take n (drop (h * src.stride) src.bytes) ++ rows n src (h + 1) left

drop_eq : {A : Type 0} (n m : ℕ) (xs : List A) → n ≡ m → drop n xs ≡ drop m xs
drop_eq n m xs e = ap (λ k. drop k xs) e

drop_sum : {A : Type 0} (n m : ℕ) (xs : List A) → drop n (drop m xs) ≡ drop (m + n) xs
drop_sum n zero xs = drop_eq n (0 + n) xs (omega arith)
drop_sum n (suc m) [] = drop_all n [] (omega arith) ∙ sym (drop_all (suc m + n) [] (omega arith))
drop_sum n (suc m) (x ∷ xs) =
    drop_sum n m xs ∙ drop_eq (suc (m + n)) (suc m + n) (x ∷ xs) (omega arith)

copy-append :
    (start : ℕ) (src : List ℕ) (n : ℕ) (front rest : List ℕ)
    → start + n ≤ length src
    → n ≤ length rest
    → copy start src (length front) n (front ++ rest)
      ≡ some (front ++ (take n (drop start src) ++ drop n rest))
unfolding copy
copy-append start src n front rest there room = rw (inside) (
    rw
      (
        take-append front rest,
        sym (drop_sum n (length front) (front ++ rest)),
        drop-append front rest,
      )
      refl)
  where
    inside :
        (ltb (length src) (start + n) || ltb (length (front ++ rest)) (length front + n)) ≡ false
    inside = ground (arith, length-append front rest)

-- The rows land one behind the other, wherever the code computes their index to be.
copy_rows-rows :
    (index : ℕ → ℕ) (n : ℕ) (src : Plane) (h left : ℕ) (front rest : List ℕ)
    → ((k : ℕ) → index k ≡ k * n)
    → length front ≡ h * n
    → n ≤ src.stride
    → (h + left) * src.stride ≤ length src.bytes
    → left * n ≤ length rest
    → copy_rows index n src h left (front ++ rest)
      ≡ some (front ++ (rows n src h left ++ drop (left * n) rest))
unfolding copy_rows rows
copy_rows-rows index n src h zero front rest at filled wide there room =
    ap (λ xs. some (front ++ xs)) (drop_eq 0 (0 * n) rest (omega arith))
copy_rows-rows index n src h (suc left) front rest at filled wide there room =
    let row = take n (drop (h * src.stride) src.bytes) in
    let size : length row ≡ n =
      length-take n (drop (h * src.stride) src.bytes)
        (omega (arith, length-drop (h * src.stride) src.bytes, there, wide)) in
    rw
      (
        at h,
        sym filled,
        copy-append (h * src.stride) src.bytes n front rest (omega (arith, there, wide))
            (omega (arith, room)),
      )
      (ap (copy_rows index n src (h + 1) left) (sym (append_assoc front row (drop n rest)))
        ∙ copy_rows-rows index n src (h + 1) left (front ++ row) (drop n rest) at
            (omega (arith, length-append front row, size, filled)) wide (omega (arith, there))
            (omega (arith, length-drop n rest, room))
        ∙ ap some (
            append_assoc front row (rows n src (h + 1) left ++ drop (left * n) (drop n rest))
            ∙ ap (λ xs. front ++ xs)
                (sym (append_assoc row (rows n src (h + 1) left) (drop (left * n) (drop n rest)))
                  ∙ ap (λ xs. (row ++ rows n src (h + 1) left) ++ xs)
                      (drop_sum (left * n) n rest
                        ∙ drop_eq (n + left * n) (suc left * n) rest (omega arith)))))

-- A whole plane.
copy_rows-plane :
    (index : ℕ → ℕ) (n : ℕ) (src : Plane) (count : ℕ) (block : List ℕ)
    → ((k : ℕ) → index k ≡ k * n)
    → n ≤ src.stride
    → count * src.stride ≤ length src.bytes
    → count * n ≤ length block
    → copy_rows index n src 0 count block ≡ some (rows n src 0 count ++ drop (count * n) block)
copy_rows-plane index n src count block at wide there room =
    copy_rows-rows index n src 0 count [] block at (omega arith) wide (omega (arith, there)) room

-- A plane of half the width, in a block of half the frame.
copy_rows-chroma :
    (w height : ℕ) (src : Plane) (block : List ℕ)
    → w ≤ src.stride
    → (height / 2) * src.stride ≤ length src.bytes
    → length block ≡ 2 * w * height / 2
    → copy_rows (λ h. h * (2 * w) / 2) (2 * w / 2) src 0 (height / 2) block
      ≡ some (rows w src 0 (height / 2) ++ drop (height / 2 * w) block)
copy_rows-chroma w height src block wide there sized = rw (half) (
    copy_rows-plane (λ h. h * (2 * w) / 2) w src (height / 2) block (λ k. omega arith) wide there
      (omega (arith, sized, few)))
  where
    half : 2 * w / 2 ≡ w
    half = omega arith

    few : 2 * (height / 2) * w ≤ height * w
    few = mul-le-mul_right w (omega arith)

-- The plane of the whole width, in a block of the size of the frame.
copy_rows-luma :
    (n height : ℕ) (src : Plane) (block : List ℕ)
    → n ≤ src.stride
    → height * src.stride ≤ length src.bytes
    → n * height ≤ length block
    → copy_rows (λ h. h * n) n src 0 height (take (n * height) block) ≡ some (rows n src 0 height)
copy_rows-luma n height src block wide there room =
    let size = length-take (n * height) block room in
    copy_rows-plane (λ h. h * n) n src height (take (n * height) block) (λ k. refl) wide there
      (omega (arith, size))
    ∙ ap (λ xs. some (rows n src 0 height ++ xs))
        (drop_all (height * n) (take (n * height) block) (omega (arith, size)))
    ∙ ap some (append-nil (rows n src 0 height))

module _ {S : Type 0} (video_send_frame : S → ℕ → ℕ → ℕ → List ℕ → List ℕ → List ℕ → S) where
  -- `junk` is what malloc returned for the planes. The product of the two numbers of 16 bits is an
  -- int, whose overflow is a fault.
  unfoldable pub video_receive_frame :
      (ℕ → List ℕ) → S → ℕ → ℕ → ℕ → List ℕ → List ℕ → List ℕ → ℤ → ℤ → ℤ → Option S
  unfolding copy_rows
  video_receive_frame junk av friend_number width height y u v ystride ustride vstride =
      if ltb (abs ystride) width || (ltb (abs ustride) (width / 2) || ltb (abs vstride) (width / 2))
      then some av
      else if leb (2 ^ 31) (width * height)
      then none
      else (do
        y_dest ←
            copy_rows (λ h. h * width) width (record { bytes = y; stride = abs ystride }) 0 height
              (take (width * height) (junk 0))
        u_dest ←
            copy_rows (λ h. h * width / 2) (width / 2) (record { bytes = u; stride = abs ustride })
              0 (height / 2) (take (width * height / 2) (junk 1))
        v_dest ←
            copy_rows (λ h. h * width / 2) (width / 2) (record { bytes = v; stride = abs vstride })
              0 (height / 2) (take (width * height / 2) (junk 2))
        some (video_send_frame av friend_number width height y_dest u_dest v_dest))

  -- A frame is sent back without its padding: where its width is even, its planes have as many
  -- bytes as toxav documents, its rows are not longer than their strides, it has fewer than 2 ^ 31
  -- pixels, and malloc returns the room asked for, what goes out is the rows of the luma plane one
  -- behind the other, and two blocks that begin with the rows of the chroma planes one behind the
  -- other.
  pub video_receive_frame_echoes :
      (junk : ℕ → List ℕ) (av : S) (friend_number w height : ℕ) (y u v : List ℕ)
      (ystride ustride vstride : ℤ)
      → 2 * w ≤ abs ystride
      → w ≤ abs ustride
      → w ≤ abs vstride
      → height * abs ystride ≤ length y
      → (height / 2) * abs ustride ≤ length u
      → (height / 2) * abs vstride ≤ length v
      → 2 * w * height < 2 ^ 31
      → ((k : ℕ) → 2 * w * height ≤ length (junk k))
      → (u_rest : List ℕ) × (v_rest : List ℕ) × (video_receive_frame junk av friend_number
            (2 * w)
            height
            y
            u
            v
            ystride
            ustride
            vstride
          ≡ some (
              video_send_frame av friend_number
                (2 * w)
                height
                (rows (2 * w) (record { bytes = y; stride = abs ystride }) 0 height)
                (rows w (record { bytes = u; stride = abs ustride }) 0 (height / 2) ++ u_rest)
                (rows w (record { bytes = v; stride = abs vstride }) 0 (height / 2) ++ v_rest)))
  unfolding video_receive_frame
  video_receive_frame_echoes junk av friend_number w height y u v ystride ustride vstride wide_y
        wide_u wide_v there_y there_u there_v pixels room =
      let y_plane : Plane = record { bytes = y; stride = abs ystride } in
      let u_plane : Plane = record { bytes = u; stride = abs ustride } in
      let v_plane : Plane = record { bytes = v; stride = abs vstride } in
      let u_block = take (2 * w * height / 2) (junk 1) in
      let v_block = take (2 * w * height / 2) (junk 2) in
      (
        drop (height / 2 * w) u_block,
        drop (height / 2 * w) v_block,
        rw
            (
              proceeds,
              fits,
              copy_rows-luma (2 * w) height y_plane (junk 0) wide_y there_y (room 0),
              copy_rows-chroma w height u_plane u_block wide_u there_u
                  (length-take (2 * w * height / 2) (junk 1) (omega (arith, room 1))),
              copy_rows-chroma w height v_plane v_block wide_v there_v
                  (length-take (2 * w * height / 2) (junk 2) (omega (arith, room 2))),
            )
            refl,
      )
    where
      proceeds :
          (ltb (abs ystride) (2 * w)
            || (ltb (abs ustride) (2 * w / 2) || ltb (abs vstride) (2 * w / 2)))
          ≡ false
      proceeds = ground (arith, wide_y, wide_u, wide_v)

      fits : leb (2 ^ 31) (2 * w * height) ≡ false
      fits = ground (arith, pixels)
