-- ===== src/Options/Pooling.antt =====
-- Options that pass give a pool.
use shredstream_sdk_go.Prelude.{
  ℕ, zero, suc, ◌≡◌, ◌≢◌, ◌↔◌, refl, ap, ◌∙◌, true, false, some, Option-cases, inl, inr, arith,
  length,
}
use shredstream_sdk_go.Prelude.Int.{ℤ, pos, negsuc, ◌≤ℤ◌}
use shredstream_sdk_go.Pool.{BufferPool, new_buffer_pool, indices, available}
use shredstream_sdk_go.Options.{
  ListenerOptions, validate, valid, pool_size_in_range, is_negative, is_zero,
}

length-indices : (n from : ℕ) → length (indices n from) ≡ n
unfolding indices
length-indices zero from = refl
length-indices (suc n) from = ap suc (length-indices n (suc from))

-- A size of a pool that can be made, with all its buffers free.
abbrev pub Makes : ℤ → Type 0
Makes (negsuc n) = ⊥
Makes (pos n) = (p : BufferPool) × (new_buffer_pool n ≡ some p) × (available p ≡ n)

made : (n : ℕ) → pool_size_in_range (pos n) ≡ true → Makes (pos n)
unfolding new_buffer_pool available
made n h = elim (Option-cases (new_buffer_pool n)) [
  | inl panics ↦ absurd (ground arith)
  | inr (p, makes) ↦
      let free : p.freelist ≡ indices n 0 = ground arith in
      (p, makes, ap length free ∙ length-indices n 0)
]

pool_size_in_range_iff : (size : ℤ) → (pool_size_in_range size ≡ true) ↔ Makes size
pool_size_in_range_iff (negsuc n) = (λ h. absurd cc, λ h. absurd h)
pool_size_in_range_iff (pos n) =
    (made n, λ (p, makes, free). unfold new_buffer_pool in ground arith)

is_negative_iff : (n : ℤ) → (is_negative n ≡ false) ↔ (pos 0 ≤ℤ n)
is_negative_iff (pos n) = (λ h. omega arith, λ h. refl)
is_negative_iff (negsuc n) = (λ h. absurd cc, λ h. absurd (omega arith))

is_zero_iff : (n : ℤ) → (is_zero n ≡ false) ↔ (n ≢ pos 0)
is_zero_iff (pos zero) = (λ h e. cc, λ h. absurd (h refl))
is_zero_iff (pos (suc n)) = (λ h e. cc, λ h. ground arith)
is_zero_iff (negsuc n) = (λ h e. absurd cc, λ h. refl)

-- The validation passes exactly the options with which the pool can be made without a panic, of the
-- size that they say and with all its buffers free, whose receive buffer is not negative, and whose
-- maximal age is not 0: a negative age passes too, although the message of the code for this field says
-- that it must be greater than 0.
pub validate_iff :
    (o : ListenerOptions)
    → (validate o ≡ valid) ↔ (Makes o.pool_size × (pos 0 ≤ℤ o.recv_buf) × (o.max_age ≢ pos 0))
unfolding validate
validate_iff o =
    let fits = pool_size_in_range_iff o.pool_size in
    let signed = is_negative_iff o.recv_buf in
    let aged = is_zero_iff o.max_age in
    (
      λ h.
          let (a, b, c) : (pool_size_in_range o.pool_size ≡ true)
              × (is_negative o.recv_buf ≡ false)
              × (is_zero o.max_age ≡ false) =
            ground arith in
          (fits.0 a, signed.0 b, aged.0 c),
      λ (a, b, c).
          let in_range = fits.1 a in let kept = signed.1 b in let older = aged.1 c in ground arith,
    )
