-- ===== src/Index/Division.antt =====
-- Division with remainder of an index that is a multiple and an offset.
use nea.Base.{ℕ, ◌+◌, ◌*◌, ◌/◌, ◌%◌, ◌≤◌, ◌<◌, ◌≡◌, arith}

pub div_of_parts : (b p o : ℕ) → o < p → (b * p + o) / p ≡ b
div_of_parts b p o h = grind arith

pub mod_of_parts : (b p o : ℕ) → o < p → (b * p + o) % p ≡ o
mod_of_parts b p o h = grind arith

pub parts_lt : (b n p o : ℕ) → b < n → o < p → b * p + o < n * p
parts_lt b n p o h k = grind arith

pub div-lt : (i n p : ℕ) → i < n * p → 0 < p → i / p < n
div-lt i n p h k = grind arith

pub parts_eq : (i p : ℕ) → i / p * p + i % p ≡ i
parts_eq i p = grind arith

pub mul-le-left : (b n p : ℕ) → b ≤ n → b * p ≤ n * p
mul-le-left b n p h = grind arith
