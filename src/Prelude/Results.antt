-- ===== src/Prelude/Results.antt =====
-- Python code that may raise. An index past the end of a byte string raises `index_error`.
-- `out_of_fuel` marks a loop that was not given enough rounds; no exception of Python is one.
use Prim.Native.Nat.{ℕ, ◌<◌}
use mathlib.Core.Path.{◌≡◌, refl}
use mathlib.Core.Bool.{Bool, true, false}
use mathlib.Core.Option.{Option, none, some}
use mathlib.Core.List.{List}
use python_deep_packet_inspe.Prelude.Lists.{length, get_elem?, get_elem?-some}

pub data PyError : Type 0 where
  index_error zero_division value_error struct_error out_of_fuel : PyError

pub data Py {ℓ} (A : Type ℓ) : Type ℓ where
  ok : A → Py A
  raise : PyError → Py A

infixl 5 ◌>>=◌
abbrev pub ◌>>=◌ {ℓ κ} : {A : Type ℓ} {B : Type κ} → Py A → (A → Py B) → Py B
ok a >>= f = f a
raise e >>= f = raise e

-- `data[i]` for an index that is not negative.
abbrev pub of_option {ℓ} : {A : Type ℓ} → Option A → Py A
of_option none = raise index_error
of_option (some a) = ok a

abbrev pub index : List ℕ → ℕ → Py ℕ
index bytes i = of_option (get_elem? bytes i)

pub index_ok : (bytes : List ℕ) (i : ℕ) → i < length bytes → (b : ℕ) × (index bytes i ≡ ok b)
index_ok bytes i h = let (b, e) = get_elem?-some bytes i h in (b, rw e)

-- The code returns a value.
abbrev pub is_ok {ℓ} : {A : Type ℓ} → Py A → Bool
is_ok (ok a) = true
is_ok (raise e) = false

pub value_of {ℓ} : {A : Type ℓ} (r : Py A) → is_ok r ≡ true → (a : A) × (r ≡ ok a)
value_of (ok a) h = (a, refl)
value_of (raise e) h = cc

pub index-is_ok : (bytes : List ℕ) (i : ℕ) → i < length bytes → is_ok (index bytes i) ≡ true
index-is_ok bytes i h = let (b, e) = index_ok bytes i h in rw e

-- The rest of a block may use what its first part returned.
pub is_ok-bind {ℓ κ} :
    {A : Type ℓ} {B : Type κ} (m : Py A) (f : A → Py B)
    → is_ok m ≡ true
    → ((a : A) → m ≡ ok a → is_ok (f a) ≡ true)
    → is_ok (m >>= f) ≡ true
is_ok-bind (ok a) f h rest = rest a refl
is_ok-bind (raise e) f h rest = h

pub ok_inj {ℓ} : {A : Type ℓ} (a b : A) → ok a ≡ ok b → a ≡ b
ok_inj a b h = cc

-- A block that returns has a first part that returns.
pub ok-bind {ℓ κ} :
    {A : Type ℓ} {B : Type κ} (m : Py A) (f : A → Py B) (b : B)
    → (m >>= f) ≡ ok b
    → (a : A) × (m ≡ ok a) × (f a ≡ ok b)
ok-bind (ok a) f b h = (a, refl, h)
ok-bind (raise e) f b h = cc
