-- ===== src/Common/Io.antt =====
-- A driver's functions as steps on a state: a step gives a result, or fails, and the state moves
-- on in either case.
use mathlib.Core.Path.{◌≡◌, refl}
use mathlib.Core.Bool.{Bool, true, false}
use mathlib.Core.Option.{Option, none, some}

abbrev pub Io {ℓ} : Type ℓ → Type 0 → Type ℓ
Io Mem A = Mem → Option A × Mem

abbrev pub done {ℓ} : {Mem : Type ℓ} {A : Type 0} → A → Io Mem A
done a m = (some a, m)

abbrev pub fail {ℓ} : {Mem : Type ℓ} {A : Type 0} → Io Mem A
fail m = (none, m)

-- What follows a call, by what the call gave.
abbrev pub after {ℓ} :
    {Mem : Type ℓ} {A B : Type 0} → Option A × Mem → (A → Io Mem B) → Option B × Mem
after (none, m) k = (none, m)
after (some a, m) k = k a m

infixl 5 ◌>>=◌ ◌>>◌
-- `if (!call) { return false; }`, and the rest.
abbrev pub ◌>>=◌ {ℓ} : {Mem : Type ℓ} {A B : Type 0} → Io Mem A → (A → Io Mem B) → Io Mem B
◌>>=◌ c k m = after (c m) k

abbrev pub ◌>>◌ {ℓ} : {Mem : Type ℓ} {B : Type 0} → Io Mem (Unit {0}) → Io Mem B → Io Mem B
c >> k = c >>= λ _. k

abbrev pub guard {ℓ} : {Mem : Type ℓ} → Bool → Io Mem (Unit {0})
guard true = done tt
guard false = fail

-- A call whose result is ignored.
abbrev pub attempt {ℓ} : {Mem : Type ℓ} {A : Type 0} → Io Mem A → Io Mem (Unit {0})
attempt c m = (some tt, (c m).1)

pub after-eq-some {ℓ} :
    {Mem : Type ℓ} {A B : Type 0} (r : Option A × Mem) (k : A → Io Mem B) {m' : Mem} {b : B}
    → after r k ≡ (some b, m')
    → (a : A) × (m1 : Mem) × (r ≡ (some a, m1)) × (k a m1 ≡ (some b, m'))
after-eq-some (none, m1) k h = cc
after-eq-some (some a, m1) k h = (a, m1, refl, h)

-- A successful sequence of calls is a successful call and a successful rest.
pub >>=-eq-some {ℓ} :
    {Mem : Type ℓ} {A B : Type 0} (c : Io Mem A) (k : A → Io Mem B) (m : Mem) {m' : Mem} {b : B}
    → (c >>= k) m ≡ (some b, m')
    → (a : A) × (m1 : Mem) × (c m ≡ (some a, m1)) × (k a m1 ≡ (some b, m'))
>>=-eq-some c k m h = after-eq-some (c m) k h
