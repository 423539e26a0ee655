-- ===== src/GlobalMarket/Prices.antt =====
-- About the inversion of prices.
use social_sentiment.GlobalMarket.{Floats, Ohlc, smaller, smallest, normalize_fx_ohlc}
use social_sentiment.Prelude.{◌≡◌, Bool, true, false, refl, Bool-cases, ◌⊎◌, inl, inr}
use social_sentiment.Outcome.{ok, raised, value_error}

-- What floating point grants of numbers: the order agrees with the comparison with zero, and the
-- rounded reciprocal of positive numbers reverses the order.
pub record AreFloats (floats : Floats) : Type 0 where
  pub below_zero :
      (a b : floats.F) → floats.lt b a ≡ true → floats.le_zero a ≡ true → floats.le_zero b ≡ true
  pub zero_below :
      (a b : floats.F) → floats.le_zero b ≡ true → floats.le_zero a ≡ false → floats.lt b a ≡ true
  pub reversed :
      (a b : floats.F)
      → floats.le_zero a ≡ false
      → floats.le_zero b ≡ false
      → floats.le a b ≡ true
      → floats.le (floats.reciprocal b) (floats.reciprocal a) ≡ true

module _ (floats : Floats) where
  -- The low is lowest, the high is highest.
  abbrev pub IsBar : Ohlc floats.F → Type 0
  IsBar b =
      (floats.le b.low_price b.open_price ≡ true)
      × (floats.le b.low_price b.close_price ≡ true)
      × (floats.le b.open_price b.high_price ≡ true)
      × (floats.le b.close_price b.high_price ≡ true)

  abbrev pub ArePositive : Ohlc floats.F → Type 0
  ArePositive b =
      (floats.le_zero b.open_price ≡ false)
      × (floats.le_zero b.high_price ≡ false)
      × (floats.le_zero b.low_price ≡ false)
      × (floats.le_zero b.close_price ≡ false)

  module _ (are : AreFloats floats) where
    smaller_positive :
        (a b : floats.F)
        → floats.le_zero (smaller floats a b) ≡ false
        → (floats.le_zero a ≡ false) × (floats.le_zero b ≡ false)
    smaller_positive a b h = elim (Bool-cases (floats.lt b a)) [
      | inl q ↦
          let right : floats.le_zero b ≡ false = rw q at h in
          let left : floats.le_zero a ≡ false = elim (Bool-cases (floats.le_zero a)) [
            | inl z ↦ let both = are.below_zero a b q z in cc (both, right)
            | inr z ↦ z
          ] in
          (left, right)
      | inr q ↦
          let left : floats.le_zero a ≡ false = rw q at h in
          let right : floats.le_zero b ≡ false = elim (Bool-cases (floats.le_zero b)) [
            | inl z ↦ let both = are.zero_below a b z left in cc (both, q)
            | inr z ↦ z
          ] in
          (left, right)
    ]

    smaller_zero :
        (a b : floats.F)
        → floats.le_zero (smaller floats a b) ≡ true
        → (floats.le_zero a ≡ true) ⊎ (floats.le_zero b ≡ true)
    smaller_zero a b h = elim (Bool-cases (floats.lt b a)) [
      | inl q ↦ let right : floats.le_zero b ≡ true = rw q at h in inr right
      | inr q ↦ let left : floats.le_zero a ≡ true = rw q at h in inl left
    ]

    smallest-ArePositive :
        (b : Ohlc floats.F) → floats.le_zero (smallest floats b) ≡ false → ArePositive b
    smallest-ArePositive b h =
        let (three, close) = smaller_positive _ b.close_price h in
        let (two, low) = smaller_positive _ b.low_price three in
        let (open_, high) = smaller_positive b.open_price b.high_price two in
        (open_, high, low, close)

    smallest_zero :
        (b : Ohlc floats.F) → floats.le_zero (smallest floats b) ≡ true → ¬ (ArePositive b)
    smallest_zero b h (o, hi, l, c) = elim (smaller_zero _ b.close_price h) [
      | inr z ↦ cc (z, c)
      | inl three ↦ elim (smaller_zero _ b.low_price three) [
        | inr z ↦ cc (z, l)
        | inl two ↦ elim (smaller_zero b.open_price b.high_price two) [
          | inl z ↦ cc (z, o)
          | inr z ↦ cc (z, hi)
        ]
      ]
    ]

    -- Of a bar whose low is lowest and whose high is highest, the normalization makes such a bar
    -- again, where the provider quotes local currency per dollar or all four prices are positive; in
    -- any other case it raises the `ValueError`.
    pub normalize_fx_ohlc-IsBar :
        (provider_is_local_per_usd : Bool) (b : Ohlc floats.F)
        → IsBar b
        → ((n : Ohlc floats.F) × (normalize_fx_ohlc floats provider_is_local_per_usd b ≡ ok n)
            × IsBar n
            × ((provider_is_local_per_usd ≡ true) ⊎ ArePositive b))
          ⊎ ((normalize_fx_ohlc floats provider_is_local_per_usd b
                ≡ raised (value_error "FX prices must be positive before inversion"))
              × (provider_is_local_per_usd ≡ false)
              × ¬ (ArePositive b))
    unfolding normalize_fx_ohlc
    normalize_fx_ohlc-IsBar true b bar = inl (b, refl, bar, inl refl)
    normalize_fx_ohlc-IsBar false b (lo, lc, oh, ch) =
        elim (Bool-cases (floats.le_zero (smallest floats b))) [
          | inl e ↦ inr (rw e refl, refl, smallest_zero b e)
          | inr e ↦
              let (o, h, l, c) = smallest-ArePositive b e in
              inl (
                record {
                  open_price = floats.reciprocal b.open_price;
                  high_price = floats.reciprocal b.low_price;
                  low_price = floats.reciprocal b.high_price;
                  close_price = floats.reciprocal b.close_price;
                },
                rw e refl,
                (
                  are.reversed b.open_price b.high_price o h oh,
                  are.reversed b.close_price b.high_price c h ch,
                  are.reversed b.low_price b.open_price l o lo,
                  are.reversed b.low_price b.close_price l c lc,
                ),
                inr (o, h, l, c),
              )
        ]
