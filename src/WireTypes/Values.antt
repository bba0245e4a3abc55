-- ===== src/WireTypes/Values.antt =====
-- The operations of `Double` are those of the floating-point type on the values.
use pensar.Base.{ℕ, ◌^◌, ◌<◌, ◌≡◌, ap, ◌∙◌}
use pensar.ByteOrder.{StdEndian}
use pensar.WireTypes.{
  Endian, Floats, WireDouble, new_double, of_raw_bits, double_value, assign_double, assign_op,
  double_add, double_sub, double_mul, double_div,
}
use pensar.WireTypes.Storage.{decode-encode}

module _ {κ} {T : Type κ} (f : Floats T) (native : StdEndian) (e : Endian) (n : ℕ) where
  double_value-new_double :
      (t : T)
      → f.to_bits t < 256 ^ n
      → f.of_bits (f.to_bits t) ≡ t
      → double_value f native e n (new_double f native e n t) ≡ t
  unfolding double_value new_double
  double_value-new_double t fits back =
      ap f.of_bits (decode-encode native e n (f.to_bits t) fits) ∙ back

  -- If the bits of each floating-point number fit the width and give the number back, then a
  -- `Double` has the value it was constructed or assigned with, and the sum, the difference, the
  -- product and the quotient of two of them have the sum, the difference, the product and the
  -- quotient of the values as values; raw bits have the value of these bits.
  pub double_value-ops :
      ((t : T) → f.to_bits t < 256 ^ n)
      → ((t : T) → f.of_bits (f.to_bits t) ≡ t)
      → (a b : WireDouble) (t : T) (raw : ℕ) → raw < 256 ^ n
      → let value = double_value f native e n in
        (value (new_double f native e n t) ≡ t)
        × (value (assign_double f native e n t a) ≡ t)
        × (value (of_raw_bits f native e n raw) ≡ f.of_bits raw)
        × (value (double_add f native e n a b) ≡ f.add (value a) (value b))
        × (value (double_sub f native e n a b) ≡ f.sub (value a) (value b))
        × (value (double_mul f native e n a b) ≡ f.mul (value a) (value b))
        × (value (double_div f native e n a b) ≡ f.div (value a) (value b))
  unfolding new_double double_value assign_double of_raw_bits double_add double_sub double_mul
      double_div assign_op
  double_value-ops fits back a b t raw small =
      let made = λ (u : T). double_value-new_double u (fits u) (back u) in
      let value = λ (d : WireDouble). double_value f native e n d in
      (
        made t,
        made t,
        ap f.of_bits (decode-encode native e n raw small),
        made (f.add (value a) (value b)),
        made (f.sub (value a) (value b)),
        made (f.mul (value a) (value b)),
        made (f.div (value a) (value b)),
      )
