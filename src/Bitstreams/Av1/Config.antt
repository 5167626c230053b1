-- ===== src/Bitstreams/Av1/Config.antt =====
-- backends/_bitstreams.py, AV1: a color configuration, as `av1_set_color` writes it again.
use opencodecs.Common.{
  ℕ, ◌<◌, List, [], ◌∷◌, Bool, true, false, some, ◌≡◌, refl, ◌==◌, ==_iff, if◌then◌else◌, arith,
  sym, some_pair,
}
use mathlib.Core.Path.{subst}
use opencodecs.Bitstreams.{u}
use opencodecs.Bitstreams.Reader.{Reader, pure, ◌>>=◌, if_flag}
use opencodecs.Bitstreams.Moves.{bind-cases}
use opencodecs.Bitstreams.Prints.{
  Prints, Prints-bind, Prints-map, Prints-pure, Prints-u, Prints-bit, u-small,
}
use opencodecs.Bitstreams.Hevc.Sps.{Color, description}
use opencodecs.Bitstreams.Av1.{
  depth, depth_bits, identity, ranged, ranged_bits, SequenceHeader, color_config, color_bits,
}
use opencodecs.Bitstreams.Av1.Front.{Start}
use opencodecs.Bitstreams.Av1.Fields.{depth-Prints, description-Prints}
use opencodecs.Bitstreams.Av1.Ranged.{plain, plain-Prints, ranged-plain}

abbrev last : Start → ℕ → ℕ → Color → ℕ × ℕ → ℕ → ℕ → Reader SequenceHeader
last start bits mono color s position separate = do
  film_grain ← u 1
  pure (record {
    start = start;
    bits = bits;
    mono = mono;
    color = color;
    subsampling = s;
    sample_position = position;
    separate_uv = separate;
    film_grain = film_grain;
  })

abbrev after_ranged : Start → ℕ → ℕ → ℕ × ℕ × ℕ → Bool × (ℕ × ℕ) × ℕ → Reader SequenceHeader
after_ranged start bits mono c r = do
  separate ← if mono == 0 then u 1 else pure 0
  last start bits mono (c.0, c.1, c.2, r.0) r.1 r.2 separate

abbrev after_description : Start → ℕ → ℕ → ℕ × ℕ × ℕ → Reader SequenceHeader
after_description start bits mono c = do
  r ← ranged start.profile bits mono c
  after_ranged start bits mono c r

abbrev after_mono : Start → ℕ → ℕ → Reader SequenceHeader
after_mono start bits mono = do
  c ← if_flag (2, 2, 2) description
  after_description start bits mono c

abbrev after_depth : Start → ℕ → Reader SequenceHeader
after_depth start bits = do
  mono ← if start.profile == 1 then pure 0 else u 1
  after_mono start bits mono

parts : (start : Start) → color_config start ≡ (depth start.profile >>= after_depth start)
unfolding color_config
parts start = refl

-- The same header with another color.
unfoldable pub recolored : SequenceHeader → Color → SequenceHeader
recolored info color = record {
  start = info.start;
  bits = info.bits;
  mono = info.mono;
  color = color;
  subsampling = info.subsampling;
  sample_position = info.sample_position;
  separate_uv = info.separate_uv;
  film_grain = info.film_grain;
}

flag-Prints :
    {A : Type 0} (other : A) {p : Reader A} {v : A} {w : List ℕ}
    → Prints p v w
    → Prints (if_flag other p) v (1 ∷ w)
unfolding if_flag
flag-Prints other {p = p} h = Prints-bind (λ b. if b == 0 then pure other else p) (Prints-bit 1) h

mono-Prints :
    (one_p : Bool) → Prints (if one_p then pure 0 else u 1) 0 (if one_p then [] else 0 ∷ [])
mono-Prints true = Prints-pure 0
mono-Prints false = Prints-bit 0

color_config-rebuilt :
    (info : SequenceHeader) (cp tc mc : ℕ) (full : Bool)
    → info.mono ≡ 0
    → Prints (depth info.start.profile) info.bits (depth_bits info.start.profile info.bits)
    → Prints
        (plain info.start.profile info.bits)
        (full, info.subsampling, info.sample_position)
        (ranged_bits info full)
    → info.separate_uv < 2
    → info.film_grain < 2
    → identity (cp, tc, mc) ≡ false
    → cp < 256
    → tc < 256
    → mc < 256
    → Prints
        (color_config info.start)
        (recolored info (cp, tc, mc, full))
        (color_bits info (cp, tc, mc, full))
unfolding color_config color_bits recolored
color_config-rebuilt info cp tc mc full gray d r separate film other a b c =
    Prints-bind (after_depth info.start) d (
      Prints-bind (after_mono info.start info.bits)
        (subst
          (λ t.
            Prints (if info.start.profile == 1 then pure 0 else u 1) t
              (if info.start.profile == 1 then [] else 0 ∷ []))
          (sym gray) (mono-Prints (info.start.profile == 1)))
        (Prints-bind (after_description info.start info.bits info.mono)
          (flag-Prints (2, 2, 2) (description-Prints cp tc mc a b c))
          (Prints-bind (after_ranged info.start info.bits info.mono (cp, tc, mc))
            (subst
              (λ p. Prints p (full, info.subsampling, info.sample_position) (ranged_bits info full))
              (sym (
                ranged-plain info.start.profile info.bits info.mono (cp, tc, mc) (rw gray refl)
                  other))
              r)
            (Prints-bind
              (last info.start info.bits info.mono (cp, tc, mc, full) info.subsampling
                info.sample_position)
              (rw gray (Prints-u 1 info.separate_uv separate))
              (Prints-map
                (λ film. record {
                  start = info.start;
                  bits = info.bits;
                  mono = info.mono;
                  color = (cp, tc, mc, full);
                  subsampling = info.subsampling;
                  sample_position = info.sample_position;
                  separate_uv = info.separate_uv;
                  film_grain = film;
                })
                (Prints-u 1 info.film_grain film))))))

-- The runs that a run of `color_config` is made of.
abbrev pub Runs : Start → List ℕ → ℕ → SequenceHeader → Type 0
Runs start bytes at info =
    (info.start ≡ start)
    × (m : ℕ) × (m2 : ℕ) × (m3 : ℕ) × (m4 : ℕ) × (m5 : ℕ) × (depth info.start.profile bytes at
        ≡ some (info.bits, m))
    × (ranged info.start.profile info.bits info.mono (info.color.0, info.color.1, info.color.2)
          bytes m2
        ≡ some ((info.color.3, info.subsampling, info.sample_position), m3))
    × ((if info.mono == 0 then u 1 else pure 0) bytes m3 ≡ some (info.separate_uv, m4))
    × (u 1 bytes m4 ≡ some (info.film_grain, m5))

pub color_config-cases :
    (start : Start) (bytes : List ℕ) (at : ℕ) (info : SequenceHeader) (end : ℕ)
    → color_config start bytes at ≡ some (info, end)
    → Runs start bytes at info
unfolding color_config pure
color_config-cases start bytes at info end h =
    let (bits, m, e, h1) =
      bind-cases (depth start.profile) (after_depth start) bytes at (info, end) h in
    let (mono, m1, e1, h2) =
      bind-cases (if start.profile == 1 then pure 0 else u 1) (after_mono start bits) bytes m
        (info, end) h1 in
    let (color, m2, e2, h3) =
      bind-cases (if_flag (2, 2, 2) description) (after_description start bits mono) bytes m1
        (info, end) h2 in
    let (r, m3, e3, h4) =
      bind-cases (ranged start.profile bits mono color) (after_ranged start bits mono color) bytes
        m2 (info, end) h3 in
    let (separate, m4, e4, h5) =
      bind-cases (if mono == 0 then u 1 else pure 0)
        (last start bits mono (color.0, color.1, color.2, r.0) r.1 r.2) bytes m3 (info, end) h4 in
    last-cases start bits mono color r separate m m2 m3 m4 e e3 e4 h5
  where
    last-cases :
        (start : Start) (bits mono : ℕ) (color : ℕ × ℕ × ℕ) (r : Bool × (ℕ × ℕ) × ℕ)
        (separate m m2 m3 m4 : ℕ)
        → depth start.profile bytes at ≡ some (bits, m)
        → ranged start.profile bits mono color bytes m2 ≡ some (r, m3)
        → (if mono == 0 then u 1 else pure 0) bytes m3 ≡ some (separate, m4)
        → last start bits mono (color.0, color.1, color.2, r.0) r.1 r.2 separate bytes m4
          ≡ some (info, end)
        → Runs start bytes at info
    last-cases start bits mono color r separate m m2 m3 m4 e e3 e4 h5 =
        let (film, m5, e5, h6) =
          bind-cases (u 1)
            (λ film_grain. pure (record {
              start = start;
              bits = bits;
              mono = mono;
              color = (color.0, color.1, color.2, r.0);
              subsampling = r.1;
              sample_position = r.2;
              separate_uv = separate;
              film_grain = film_grain;
            }))
            bytes m4 (info, end) h5 in
        subst (Runs start bytes at) (some_pair h6).0 (refl, m, m2, m3, m4, m5, e, e3, e4, e5)

gray_zero : (mono : ℕ) → (mono == 0) ≡ true → mono ≡ 0
gray_zero mono h = ground (arith, ==_iff mono 0)

-- What a run on a color configuration reads, is written as it reads, with another color.
pub color_config-Prints :
    (start : Start) (bytes : List ℕ) (at : ℕ) (info : SequenceHeader) (end : ℕ) (cp tc mc : ℕ)
    (full : Bool)
    → color_config start bytes at ≡ some (info, end)
    → (info.mono == 0) ≡ true
    → identity (info.color.0, info.color.1, info.color.2) ≡ false
    → identity (cp, tc, mc) ≡ false
    → cp < 256
    → tc < 256
    → mc < 256
    → (info.start ≡ start)
      × Prints
          (color_config info.start)
          (recolored info (cp, tc, mc, full))
          (color_bits info (cp, tc, mc, full))
unfolding ranged_bits
color_config-Prints start bytes at info end cp tc mc full h gray old new a b c =
    let (same, m, m2, m3, m4, m5, e, e3, e4, e5) = color_config-cases start bytes at info end h in
    let (d, two) = depth-Prints info.start.profile bytes at info.bits m e in
    (
      same,
      color_config-rebuilt info cp tc mc full (gray_zero info.mono gray) d
          (plain-Prints info.start.profile info.bits bytes m2
            (info.color.3, info.subsampling, info.sample_position) m3 full two
            (subst
              (λ p. p bytes m2 ≡ some ((info.color.3, info.subsampling, info.sample_position), m3))
              (ranged-plain info.start.profile info.bits info.mono
                (info.color.0, info.color.1, info.color.2) gray old)
              e3))
          (u-small 1 bytes m3 info.separate_uv m4 (rw gray at e4))
          (u-small 1 bytes m4 info.film_grain m5 e5) new a b c,
    )
