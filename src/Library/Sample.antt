-- ===== src/Library/Sample.antt =====
-- Concrete functions in the place of the libraries, for runs.
use text.Mathlib.Text.{◌==◌ as str_eq}
use anytoken_distribution.Base.{◌%◌, ◌^◌, some, none, [], ◌∷◌, true, ◌==◌, if◌then◌else◌}
use anytoken_distribution.Int.{pos}
use anytoken_distribution.Library.{Library}

-- Every text is in lower case, and there are a few numbers and addresses.
abbrev pub sample : Library
sample = record {
  to_lower = λ s. s;
  equal_fold = λ a b. str_eq a b;
  trim_space = λ s. s;
  is_hex_address = λ s. true;
  hex_to_address = λ s. if str_eq s "0x1" then 1 else if str_eq s "0x2" then 2 else 0;
  address_string = λ n. if n == 1 then "0x1" else if n == 2 then "0x2" else "0x0";
  bytes_to_address = λ n. n % 2 ^ 160;
  set_bytes = λ bytes. pos 0;
  set_string =
      λ s. if str_eq s "7" then some (pos 7) else if str_eq s "0" then some (pos 0) else none;
  int_string = λ n. "7";
  split = λ s.
      if str_eq s "0x1,7,7,7"
      then "0x1" ∷ "7" ∷ "7" ∷ "7" ∷ []
      else if str_eq s "0x1,7,7,7,0xh"
      then "0x1" ∷ "7" ∷ "7" ∷ "7" ∷ "0xh" ∷ []
      else s ∷ [];
  format_uint = λ n. "7";
  set_decimal = λ s. if str_eq s "7" then some (pos 7) else none;
  hex_to_hash = λ s. 5;
  hash_string = λ n. "0xh";
}
