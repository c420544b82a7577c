-- ===== src/TreeMap/Nat.antt =====
-- Natural numbers as keys.
use zwirn.Prelude.{ℕ, true, false, ◌≡◌, ◌⊎◌, arith, ltb, ◌==◌, ==_iff}
use zwirn.TreeMap.{Key}

pub nat_lt_total : (a b : ℕ) → (ltb a b ≡ true) ⊎ (a ≡ b) ⊎ (ltb b a ≡ true)
nat_lt_total a b = ground arith

pub nat_lt_irrefl : (a : ℕ) → ltb a a ≡ false
nat_lt_irrefl a = ground arith

pub nat_lt_trans : (a b c : ℕ) → ltb a b ≡ true → ltb b c ≡ true → ltb a c ≡ true
nat_lt_trans a b c h k = ground arith

instance abbrev pub nat_key : Key ℕ
nat_key = record {
  lt = ltb;
  eq = λ a b. a == b;
  eq_iff = ==_iff;
  lt_irrefl = nat_lt_irrefl;
  lt_trans = nat_lt_trans;
  lt_total = nat_lt_total;
}
