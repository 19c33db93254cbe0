-- ===== src/Prelude/Bytes.antt =====
-- Byte strings: a Rust `&str`, `String` or `&[u8]` is the list of its bytes. The functions are those
-- of `str` and `[u8]` that the code calls.
use Prim.Native.Nat.{ℕ, ◌+◌}
use Prim.Native.Char.{code}
use Prim.Native.String.{String}
use mathlib.Core.Path.{◌≡◌, refl, ap₂}
use mathlib.Core.Bool.{Bool, true, false, ◌&&◌}
use mathlib.Core.List.{List, [], ◌∷◌, map}
use plecto.Prelude.Tests.{if◌then◌else◌, ◌==◌, leb, ==_iff, &&_iff}

abbrev pub Text : Type 0
Text = List ℕ

-- The bytes of an ASCII literal.
abbrev pub bytes : String → Text
bytes String.[] = []
bytes (String.◌∷◌ c s) = code c ∷ bytes s

abbrev pub text_eq : Text → Text → Bool
text_eq [] [] = true
text_eq [] (y ∷ ys) = false
text_eq (x ∷ xs) [] = false
text_eq (x ∷ xs) (y ∷ ys) = (x == y) && text_eq xs ys

pub text_eq→eq : (s t : Text) → text_eq s t ≡ true → s ≡ t
text_eq→eq [] [] h = refl
text_eq→eq [] (y ∷ ys) h = cc
text_eq→eq (x ∷ xs) [] h = cc
text_eq→eq (x ∷ xs) (y ∷ ys) h =
    let both = (&&_iff (x == y) (text_eq xs ys)).0 h in
    ap₂ ◌∷◌ ((==_iff x y).0 both.0) (text_eq→eq xs ys both.1)

pub text_eq_refl : (s : Text) → text_eq s s ≡ true
text_eq_refl [] = refl
text_eq_refl (x ∷ xs) = (&&_iff (x == x) (text_eq xs xs)).1 ((==_iff x x).1 refl, text_eq_refl xs)

-- `to_ascii_lowercase` and `eq_ignore_ascii_case`.
abbrev pub lower_byte : ℕ → ℕ
lower_byte c = if leb b'A' c && leb c b'Z' then c + 32 else c

abbrev pub to_ascii_lowercase : Text → Text
to_ascii_lowercase = map lower_byte

abbrev pub eq_ignore_ascii_case : Text → Text → Bool
eq_ignore_ascii_case s t = text_eq (to_ascii_lowercase s) (to_ascii_lowercase t)
