-- ===== src/Tests.antt =====
-- Runs of the model at concrete inputs. The floats and host objects of the tests are numbers, and the
-- conversion of integers past 2^53 drops the last bit.
pub mod Keys
pub mod Arrays
pub mod Comparisons
pub mod Scopes
pub mod Assignments
pub mod Stores
pub mod Policies
pub mod Numbers
pub mod Types
pub mod Hits
pub mod Lexing
pub mod Escapes
use quill_template_engine.Prelude.{ℕ, ◌*◌, ◌/◌, ◌^◌, none, some, ltb, ◌==◌, if◌then◌else◌, codes}
use quill_template_engine.Prelude.Int.{ℤ, pos, negsuc}
use quill_template_engine.Errors.{ok}
use quill_template_engine.Runtime.Value.{Value, null, bool, int, str, arr}
use quill_template_engine.Runtime.Array.{Array, new_array, set_key}
use quill_template_engine.Runtime.Host.{Host}

abbrev pub coarse : ℤ → ℕ
coarse (pos n) = if ltb n (2 ^ 53) then n else n / 2 * 2
coarse (negsuc n) = 0

abbrev pub host : Host ℕ ℕ
host = record {
  float_eq = λ x y. x == y;
  float_lt = λ x y. ltb x y;
  float_of_int = coarse;
  format_float = λ x. ok (codes "f");
  same_object = λ o p. o == p;
  get_field = λ o name. none;
  indexable = λ o. none;
  field_setter = λ o. none;
  index_setter = λ o. none;
  stringifier = λ o. none;
  equaler = λ o. none;
  iterable = λ o. none;
}

abbrev pub num : ℕ → Value ℕ ℕ
num n = int (pos n)

abbrev pub text : Value ℕ ℕ
text = str (codes "a")

-- { 1: 10, "a": 20 }
abbrev pub two : Array ℕ ℕ
two = set_key text (num 20) (set_key (num 1) (num 10) new_array)
