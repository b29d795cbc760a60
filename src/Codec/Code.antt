-- ===== src/Codec/Code.antt =====
-- src/vllm_expert_pager/codec.py: the class `Code`, from the code lengths of the sixteen exponents to
-- the codes and the table that decodes them. `sorted` is a stable sort, the parameter of Tensor/Argsort.
pub mod Canonical
pub mod Lut
use vllm_expert_pager.Base.{
  ℕ, zero, suc, ◌+◌, ◌-◌, ◌*◌, ◌/◌, ◌%◌, ◌^◌, Bool, true, false, ◌&&◌, Option, none, some, ltb,
  ◌==◌, if◌then◌else◌, is_some, Result, ok, raise, assertion_error, index_error,
}
use Prim.Native.Nat.{bit_or}
use vllm_expert_pager.Tensor.Put.{update}
use vllm_expert_pager.Tensor.Argsort.{Argsort}
use vllm_expert_pager.Codec.{limit, lut_bytes}

-- `int(f"{c:0{n}b}"[::-1], 2)`: the binary digits of `c`, lowest first and at least `n` of them, read
-- as a number that begins with the highest.
unfoldable pub read_reversed : ℕ → ℕ → ℕ → ℕ → ℕ
read_reversed zero n c acc = acc
read_reversed (suc fuel) n c acc =
    let rest = read_reversed fuel (n - 1) (c / 2) (acc * 2 + c % 2) in
    if n == 0 && c == 0 then acc else rest

unfoldable pub reversed : ℕ → ℕ → ℕ
unfolding read_reversed
reversed n c = read_reversed (n + c) n c 0

-- `min(self.lut) >= 0`
unfoldable pub full : ℕ → (ℕ → Option ℕ) → Bool
full zero l = true
full (suc n) l = full n l && is_some (l n)

-- `assert min(self.lut) >= 0`
abbrev pub check_full : Result (ℕ → Option ℕ) → Result (ℕ → Option ℕ)
check_full (raise e) = raise e
check_full (ok l) = if full lut_bytes l then ok l else raise assertion_error

module _ (sort : Argsort) (lengths : ℕ → ℕ) where
  -- The symbols in `(length, symbol)` order.
  unfoldable pub order : ℕ → ℕ
  order = sort.order 16 lengths

  -- `code` in turn `i` of the loop.
  unfoldable pub code_at : ℕ → ℕ
  unfolding order
  code_at zero = 0
  code_at (suc i) = (code_at i + 1) * 2 ^ (lengths (order (suc i)) - lengths (order i))

  -- `canon` after `n` turns.
  unfoldable pub canon : ℕ → ℕ → ℕ
  unfolding code_at update
  canon zero s = 0
  canon (suc n) s = update (canon n) (order n) (code_at n) s

  unfoldable pub codes : ℕ → ℕ
  unfolding canon reversed
  codes s = reversed (lengths s) (canon 16 s)

  -- The inner loop of the table: `self.lut[x] = (s << 4) | n`, for `h` values of `hi`.
  unfoldable pub fill_symbol : ℕ → ℕ → (ℕ → Option ℕ) → Result (ℕ → Option ℕ)
  unfolding codes update
  fill_symbol s zero lut = ok lut
  fill_symbol s (suc h) lut = elim (fill_symbol s h lut) [
    | raise e ↦ raise e
    | ok l ↦
        let x = bit_or (codes s) (h * 2 ^ lengths s) in
        if ltb x lut_bytes
        then (if is_some (l x)
            then raise assertion_error
            else ok (update l x (some (bit_or (s * 2 ^ 4) (lengths s)))))
        else raise index_error
  ]

  -- The outer loop, for `n` symbols.
  unfoldable pub fill : ℕ → Result (ℕ → Option ℕ)
  unfolding fill_symbol
  fill zero = ok (λ _. none)
  fill (suc n) = elim (fill n) [
    | raise e ↦ raise e
    | ok l ↦ fill_symbol n (2 ^ (limit - lengths n)) l
  ]

  -- `self.lut` when the constructor returns.
  unfoldable pub make_lut : Result (ℕ → Option ℕ)
  unfolding fill
  make_lut = check_full (fill 16)
