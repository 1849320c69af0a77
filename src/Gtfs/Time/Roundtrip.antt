-- ===== src/Gtfs/Time/Roundtrip.antt =====
-- What `parse_gtfs_time` makes of what `format_gtfs_time` writes (src/metropulse/domain/gtfs_time.py).
use metropulse.Prelude.{
  ℕ, ◌+◌, ◌*◌, ◌/◌, ◌%◌, ◌≤◌, ◌<◌, ◌≡◌, refl, inl, inr, Option, none, some, [], ◌∷◌, ◌++◌, arith,
  ltb, if◌then◌else◌, ◌>>=◌, Bool-cases, ltb→lt, lt→ltb, length, length-append, All-append,
}
use metropulse.Prelude.Int.{pos}
use metropulse.Gtfs.Text.{Text, Unicode, strip, read_digits, two_digits}
use metropulse.Gtfs.Text.Decimal.{
  two_digits-lt_hundred, two_digits-lt_thousand, length-two_digits, Visible, two_digits-Visible,
  strip-Visible,
}
use metropulse.Gtfs.Time.{sixtieth, groups, match_time, parse_gtfs_time, format_gtfs_time}

-- the text that `format_gtfs_time` writes
abbrev clock_text : ℕ → ℕ → ℕ → Text
clock_text h m s = two_digits h ++ (58 ∷ (two_digits m ++ (58 ∷ two_digits s)))

module _ (u : Unicode) where
  clock_text-Visible : (h m s : ℕ) → Visible u (clock_text h m s)
  clock_text-Visible h m s = All-append _ (two_digits h) _ (two_digits-Visible u h) (
    u.space_colon,
    All-append _ (two_digits m) _ (two_digits-Visible u m) (u.space_colon, two_digits-Visible u s),
  )

  sixtieth_digits : (n : ℕ) → n < 60 → sixtieth u (48 + n / 10) (48 + n % 10) ≡ some n
  unfolding sixtieth
  sixtieth_digits n h = rw (u.decimal_ascii (n % 10) (omega arith)) (ground arith)

  read_digits-two :
      (n : ℕ) → n < 100 → read_digits u 0 ((48 + n / 10) ∷ (48 + n % 10) ∷ []) ≡ some n
  unfolding read_digits
  read_digits-two n h =
      rw (u.decimal_ascii (n / 10) (omega arith), u.decimal_ascii (n % 10) (omega arith))
        (ground arith)

  read_digits-three :
      (n : ℕ)
      → n < 1000
      → read_digits u 0 ((48 + n / 100) ∷ (48 + n / 10 % 10) ∷ (48 + n % 10) ∷ []) ≡ some n
  unfolding read_digits
  read_digits-three n h =
      rw
        (
          u.decimal_ascii (n / 100) (omega arith),
          u.decimal_ascii (n / 10 % 10) (omega arith),
          u.decimal_ascii (n % 10) (omega arith),
        )
        (ground arith)

  groups_digits :
      (hours : Text) (h m s : ℕ)
      → read_digits u 0 hours ≡ some h
      → m < 60
      → s < 60
      → groups u hours 58 (48 + m / 10) (48 + m % 10) 58 (48 + s / 10) (48 + s % 10)
        ≡ some (h * 3600 + m * 60 + s)
  groups_digits hours h m s e hm hs =
      unfold groups in rw (e, sixtieth_digits m hm, sixtieth_digits s hs) refl

  match-clock_text :
      (h m s : ℕ)
      → h < 1000
      → m < 60
      → s < 60
      → match_time u (clock_text h m s) ≡ some (h * 3600 + m * 60 + s)
  unfolding match_time
  match-clock_text h m s hh hm hs =
      rw (two_digits-lt_hundred m (omega arith), two_digits-lt_hundred s (omega arith))
        (elim (Bool-cases (ltb h 100)) [
          | inl e ↦
              rw (two_digits-lt_hundred h (ltb→lt h 100 e))
                (groups_digits _ h m s (read_digits-two h (ltb→lt h 100 e)) hm hs)
          | inr e ↦
              rw (two_digits-lt_thousand h (ground arith) hh)
                (groups_digits _ h m s (read_digits-three h hh) hm hs)
        ])

  -- ten characters are too many
  match_time-long : (t : Text) → 10 ≤ length t → match_time u t ≡ none
  unfolding match_time
  match_time-long (a ∷ b ∷ c ∷ d ∷ e ∷ f ∷ g ∷ h ∷ i ∷ j ∷ t) k = refl
  match_time-long _ k = absurd (omega arith)

  length-clock_text : (h m s : ℕ) → 999 < h → m < 60 → s < 60 → 10 ≤ length (clock_text h m s)
  length-clock_text h m s hh hm hs =
      rw (two_digits-lt_hundred m (omega arith), two_digits-lt_hundred s (omega arith))
        (omega (arith, length-append (two_digits h) _, length-two_digits h hh))

  -- Whatever `format_gtfs_time` writes for a number of seconds is parsed to that number, where its
  -- hours have at most three digits, and is refused where they have more.
  pub parse-format :
      (seconds : ℕ)
      → (format_gtfs_time (pos seconds) >>= parse_gtfs_time u)
        ≡ (if ltb seconds 3600000 then some seconds else none)
  unfolding format_gtfs_time parse_gtfs_time
  parse-format n =
      rw (strip-Visible u _ (clock_text-Visible (n / 3600) (n % 3600 / 60) (n % 3600 % 60)))
        (elim (Bool-cases (ltb n 3600000)) [
          | inl e ↦
              rw
                (
                  e,
                  match-clock_text (n / 3600) (n % 3600 / 60) (n % 3600 % 60) (ground arith)
                      (omega arith) (omega arith),
                )
                (ground arith)
          | inr e ↦
              rw
                (
                  e,
                  match_time-long _ (
                      length-clock_text (n / 3600) (n % 3600 / 60) (n % 3600 % 60) (ground arith)
                        (omega arith) (omega arith)),
                )
                refl
        ])

  -- bounds of what a match yields
  sixtieth-lt : (a b n : ℕ) → sixtieth u a b ≡ some n → n < 60
  unfolding sixtieth
  sixtieth-lt a b n h = grind (arith, u.decimal_lt)

  read_digits-cons :
      (c acc n : ℕ) (t : Text)
      → read_digits u acc (c ∷ t) ≡ some n
      → (d : ℕ) × (d < 10) × (read_digits u (acc * 10 + d) t ≡ some n)
  unfolding read_digits
  read_digits-cons c acc n t h = go (u.decimal c) refl h
    where
      go :
          (o : Option ℕ)
          → u.decimal c ≡ o
          → (o >>= λ d. read_digits u (acc * 10 + d) t) ≡ some n
          → (d : ℕ) × (d < 10) × (read_digits u (acc * 10 + d) t ≡ some n)
      go none e k = cc
      go (some d) e k = (d, u.decimal_lt c d e, k)

  read_digits-nil : (acc n : ℕ) → read_digits u acc [] ≡ some n → acc ≡ n
  unfolding read_digits
  read_digits-nil acc n h = cc

  -- Up to three digits stay below a thousand.
  read_digits-lt_thousand :
      (t : Text) (n : ℕ) → length t ≤ 3 → read_digits u 0 t ≡ some n → n < 1000
  read_digits-lt_thousand [] n k h = omega (arith, read_digits-nil 0 n h)
  read_digits-lt_thousand (a ∷ []) n k h =
      let (d, small, e) = read_digits-cons a 0 n [] h in omega (arith, read_digits-nil _ n e)
  read_digits-lt_thousand (a ∷ b ∷ []) n k h =
      let (d, small, e) = read_digits-cons a 0 n (b ∷ []) h in
      let (d', small', e') = read_digits-cons b _ n [] e in omega (arith, read_digits-nil _ n e')
  read_digits-lt_thousand (a ∷ b ∷ c ∷ []) n k h =
      let (d, small, e) = read_digits-cons a 0 n (b ∷ c ∷ []) h in
      let (d', small', e') = read_digits-cons b _ n (c ∷ []) e in
      let (d'', small'', e'') = read_digits-cons c _ n [] e' in
      omega (arith, read_digits-nil _ n e'')
  read_digits-lt_thousand (a ∷ b ∷ c ∷ d ∷ t) n k h = absurd (omega arith)

  groups_parts :
      (hours : Text) (c m1 m2 d s1 s2 n : ℕ)
      → groups u hours c m1 m2 d s1 s2 ≡ some n
      → (x : ℕ) × (y : ℕ) × (z : ℕ) × (read_digits u 0 hours ≡ some x)
        × (sixtieth u m1 m2 ≡ some y)
        × (sixtieth u s1 s2 ≡ some z)
        × (x * 3600 + y * 60 + z ≡ n)
  unfolding groups
  groups_parts hours c m1 m2 d s1 s2 n h = ground arith

  groups-lt :
      (hours : Text) (c m1 m2 d s1 s2 n : ℕ)
      → length hours ≤ 3
      → groups u hours c m1 m2 d s1 s2 ≡ some n
      → n < 3600000
  groups-lt hours c m1 m2 d s1 s2 n k h =
      let (x, y, z, ex, ey, ez, e) = groups_parts hours c m1 m2 d s1 s2 n h in
      omega (
        arith,
        read_digits-lt_thousand hours x k ex,
        sixtieth-lt m1 m2 y ey,
        sixtieth-lt s1 s2 z ez,
      )

  match_time-lt : (t : Text) (n : ℕ) → match_time u t ≡ some n → n < 3600000
  unfolding match_time
  match_time-lt (a ∷ c ∷ m1 ∷ m2 ∷ d ∷ s1 ∷ s2 ∷ []) n h =
      groups-lt _ c m1 m2 d s1 s2 n (omega arith) h
  match_time-lt (a ∷ b ∷ c ∷ m1 ∷ m2 ∷ d ∷ s1 ∷ s2 ∷ []) n h =
      groups-lt _ c m1 m2 d s1 s2 n (omega arith) h
  match_time-lt (a ∷ b ∷ e ∷ c ∷ m1 ∷ m2 ∷ d ∷ s1 ∷ s2 ∷ []) n h =
      groups-lt _ c m1 m2 d s1 s2 n (omega arith) h
  match_time-lt _ n h = cc

  -- Whatever text is accepted, its seconds lie below a thousand hours, and written back by
  -- `format_gtfs_time` they are parsed to the same number.
  pub parse_stable :
      (value : Text) (seconds : ℕ)
      → parse_gtfs_time u value ≡ some seconds
      → (seconds < 3600000)
        × ((format_gtfs_time (pos seconds) >>= parse_gtfs_time u) ≡ some seconds)
  parse_stable value n h =
      let small : n < 3600000 = unfold parse_gtfs_time in match_time-lt (strip u value) n h in
      (small, rw (parse-format n, lt→ltb n 3600000 small))
