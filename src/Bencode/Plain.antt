-- ===== src/Bencode/Plain.antt =====
-- A codec for the tests: trees as the names of the calls say, and the reader.
use tox_suite.Base.{ℕ, ◌*◌, ◌≡◌, refl, ap, Option, some, List, [], ◌++◌, arith, length, take}
use mathlib.Core.Option
use mathlib.Core.List.{append-nil}
use tox_suite.Base.{take_all}
use tox_suite.Bencode.{
  BeNode, be_str, be_int, be_list, be_dict, no_item, no_field, append_item, append_field, Bencode,
  wire, IsBencode,
}
use tox_suite.Bencode.Reader.{parse}
use tox_suite.Bencode.Reading.{parse-wire, size-lt}

pub decode : List ℕ → Option BeNode
decode s = Option.map (λ (n, rest). n) (parse (2 * length s) s)

decode-wire : (n : BeNode) → decode (wire n) ≡ some n
unfolding decode
decode-wire n = rw (← append-nil (wire n)) (
    ap (Option.map (λ (m, rest). m))
      (parse-wire n [] (2 * length (wire n ++ [])) (rw append-nil (omega (arith, size-lt n)))))

abbrev pub add_item : BeNode → BeNode → BeNode
add_item (be_list items) n = be_list (append_item items n)
add_item m n = m

abbrev pub add_field : BeNode → List ℕ → BeNode → BeNode
add_field (be_dict fields) k n = be_dict (append_field fields k n)
add_field m k n = m

abbrev pub string_length : BeNode → ℕ
string_length (be_str s) = length s
string_length n = 0

-- It truncates at the end of the buffer.
abbrev pub plain : Bencode
plain = record {
  create_str_wlen = be_str;
  create_int = be_int;
  create_list = be_list no_item;
  create_dict = be_dict no_field;
  add_list = add_item;
  add_keypair = add_field;
  str_len = string_length;
  encode = λ n size. take size (wire n);
  decoden = decode;
}

pub plain-IsBencode : IsBencode plain
plain-IsBencode = record {
  creates_str = λ s. refl;
  creates_int = λ i. refl;
  creates_list = refl;
  creates_dict = refl;
  adds_item = λ items n. refl;
  adds_field = λ fields k n. refl;
  measures = λ s. refl;
  encodes = λ n size h. take_all size (wire n) (omega (arith, h));
  decodes = decode-wire;
}
