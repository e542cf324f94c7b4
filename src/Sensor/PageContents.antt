-- ===== src/Sensor/PageContents.antt =====
-- sdi12_sensor.c: which of the cached values format_data_page puts on which page.
use libsdi.Base.{
  ℕ, ◌+◌, ◌-◌, ◌<◌, ◌≡◌, refl, Bool, false, List, [], ◌∷◌, map, Option, none, some, arith, length,
  ltb, ◌==◌, Bool-cases, inl, inr, ◌>>=◌,
}
use libsdi.Base.Buffer.{store}
use libsdi.Sensor.Types.{Floats, Value}
use libsdi.Sensor.Pages.{
  value_text, format_value, PageLoop, turn_page, place_value, page_round, page_loop, finish_page,
  render_page,
}

module _ {F : Type 0} (fl : Floats F) where
  page_loop-skip :
      (page max : ℕ) (vs : List (Value F)) (l : PageLoop)
      → 0 < page
      → l.pos ≡ 1
      → l.current_page ≡ 0
      → page_loop page max (map (format_value fl) vs) l ≡ some l
  unfolding page_loop page_round turn_page place_value format_value
  page_loop-skip page max [] l h e f = refl
  page_loop-skip page max (v ∷ vs) l h e f =
      let ih = page_loop-skip page max vs l h e f in
      let unused : ltb 0 (l.pos - 1) ≡ false = ground (arith, e) in
      let before : (l.current_page == page) ≡ false = ground (arith, f) in
      let behind : ltb page l.current_page ≡ false = ground (arith, f) in
      elim (Bool-cases (length (value_text fl v) == 0)) [
        | inl g ↦ rw (g, ih) refl
        | inr g ↦ elim (Bool-cases (ltb max (l.pos - 1 + length (value_text fl v)))) [
          | inl k ↦ rw (g, k, unused, before, behind, ih) refl
          | inr k ↦ rw (g, k, before, behind, ih) refl
        ]
      ]

  -- No value is on a page behind the first: whatever the cache holds, page 1 and the following are
  -- rendered as they are for an empty cache.
  pub render_page-later :
      (page max : ℕ) (crc : Bool) (a : ℕ) (vs : List (Value F)) (buf : List ℕ)
      → 0 < page
      → render_page fl page max crc a vs buf ≡ render_page fl page max crc a [] buf
  unfolding render_page
  render_page-later page max crc a vs buf h = go (store buf 0 (a ∷ []))
    where
      go :
          (r : Option (List ℕ))
          → (r >>= λ b.
              page_loop page max
                (map (format_value fl) vs)
                (record { buf = b; pos = 1; current_page = 0; any_on_page = false })
              >>= λ l. finish_page crc page l)
            ≡ (r >>= λ b.
                page_loop page max []
                  (record { buf = b; pos = 1; current_page = 0; any_on_page = false })
                >>= λ l. finish_page crc page l)
      go none = refl
      go (some b) =
          let l : PageLoop = record { buf = b; pos = 1; current_page = 0; any_on_page = false } in
          rw (page_loop-skip page max vs l h refl refl, page_loop-skip page max [] l h refl refl)
            refl
