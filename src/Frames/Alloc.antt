-- ===== src/Frames/Alloc.antt =====
-- `page_alloc` and `page_free`.
use treeos.Base.{
  ℕ, ◌-◌, ◌*◌, ◌%◌, ◌^◌, ◌<◌, ◌≡◌, ◌≢◌, refl, arith, true, false, Option, none, some, List, Result,
  ok, length, ◌==◌, if◌then◌else◌, ◌∙◌, sym, ap, [], ◌∷◌, ◌++◌,
}
use treeos.Bitmap.{bitmap_first_free}
use treeos.Bitmap.Bits.{taken, set_bit_lem, clear_bit_lem, test_bit_lem, Changes-Holds}
use treeos.Bitmap.Search.{FirstFree, found, full, first_free_lem}
use treeos.Frames.{Frames, Entry, page_alloc, page_free}
use treeos.Frames.Region.{IsFrames, Updates}

-- The outcomes of `page_alloc page`: a page that was free, below which none was, is now in use and
-- every other page is as before; or no page of the bitmap is free, and nothing changes.
pub data Allocates (page : Entry) (f : Frames) (words : List ℕ)
    : Result (Option Entry × Frames) → Type 0 where
  allocated :
      {result : Result (Option Entry × Frames)} (p : ℕ) (g : Frames) (out : List ℕ)
      → result ≡ ok (some (record page { address = p }), g)
      → p < f.page_bitmap.word_count * 32
      → taken words p ≡ false
      → ((j : ℕ) → j < p → taken words j ≡ true)
      → IsFrames g out
      → ((j : ℕ) → taken out j ≡ (if p == j then true else taken words j))
      → g.page_bitmap.word_count ≡ f.page_bitmap.word_count
      → g.worries ≡ f.worries
      → Allocates page f words result
  exhausted :
      {result : Result (Option Entry × Frames)}
      → result ≡ ok (none, f)
      → ((j : ℕ) → j < f.page_bitmap.word_count * 32 → taken words j ≡ true)
      → Allocates page f words result

module _ (page : Entry) {f : Frames} {words : List ℕ} (valid : IsFrames f words) where
  -- `page_alloc` gives the first page that is free, marks it and no other as in use and stores its
  -- number in the entry; it gives nothing only if all pages are in use.
  pub page_alloc_lem : Allocates page f words (page_alloc (some page) f)
  unfolding page_alloc
  page_alloc_lem = go (first_free_lem valid.holds (omega (arith, valid.size, valid.holds.enough)))
    where
      Search : Type 0
      Search =
          (r : ℕ) × (bitmap_first_free f.page_bitmap ≡ ok r)
          × FirstFree words (f.page_bitmap.word_count * 32) r

      go : Search → Allocates page f words (page_alloc (some page) f)
      go (r, e, full last all) = exhausted (rw (e, last)) all
      go (r, e, found lt free before) =
          let small : r < 32 * length words = omega (arith, valid.holds.enough) in
          let step = set_bit_lem valid.holds r small in
          let used : (r == 2 ^ 32 - 1) ≡ false = ground (arith, valid.size) in
          let short : r % 2 ^ 20 ≡ r = omega (arith, valid.size) in
          allocated r (record f { page_bitmap = record f.page_bitmap { bits = some step.out } })
            step.out (rw (e, used, step.returns, short)) lt free before
            (record {
              holds = Changes-Holds valid.holds step;
              size = step.same_length ∙ valid.size;
            })
            step.each refl refl

-- Inversion at a call that gave an entry: the entry's page was free and is now in use.
pub record Gave (page e : Entry) (f g : Frames) (words : List ℕ) : Type 0 where
  pub out : List ℕ
  pub address : e ≡ record page { address = e.address }
  pub was_free : taken words e.address ≡ false
  pub below : e.address < 32768
  pub valid : IsFrames g out
  pub each : (j : ℕ) → taken out j ≡ (if e.address == j then true else taken words j)
  pub worries : g.worries ≡ f.worries

pub gave :
    (page e : Entry) (f g : Frames) (words : List ℕ)
    → IsFrames f words
    → page_alloc (some page) f ≡ ok (some e, g)
    → Gave page e f g words
gave page e f g words valid run = go (page_alloc_lem page valid)
  where
    go : Allocates page f words (page_alloc (some page) f) → Gave page e f g words
    go (exhausted r all) = absurd (clash (sym run ∙ r))
      where
        clash : ◌≡◌ {A = Result (Option Entry × Frames)} (ok (some e, g)) (ok (none, f)) → ⊥
        clash h = ground arith
    go (allocated p g' out r lt free before valid' each count worries) =
        let same : ◌≡◌ {A = Result (Option Entry × Frames)} (ok (some e, g))
            (ok (some (record page { address = p }), g')) =
          sym run ∙ r in
        let eg : g ≡ g' = cc same in
        let ee : e ≡ record page { address = p } = cc same in
        let ea : e.address ≡ p = ap (λ (t : Entry). t.address) ee in
        record {
          out = out;
          address = ee ∙ ap (λ (t : ℕ). record page { address = t }) (sym ea);
          was_free = rw ea free;
          below = omega (arith, ea, lt, valid.size, valid.holds.enough);
          valid = rw eg valid';
          each = λ j. rw ea (each j);
          worries = ap (λ (t : Frames). t.worries) eg ∙ worries;
        }

-- A page that `page_alloc` gave is not given again before it is freed.
pub page_alloc_distinct :
    (first second e d : Entry) {f g h : Frames} (words : List ℕ)
    → IsFrames f words
    → page_alloc (some first) f ≡ ok (some e, g)
    → page_alloc (some second) g ≡ ok (some d, h)
    → e.address ≢ d.address
page_alloc_distinct first second e d {f} {g} {h} words valid one two same =
    let a = gave first e f g words valid one in
    let b = gave second d g h a.out a.valid two in ground (arith, a.each d.address, b.was_free)

module _ (page : Entry) {f : Frames} {words : List ℕ} (valid : IsFrames f words)
    (inside : page.address < 32768) where
  -- `page_free` marks the page free, changes no other, and warns if it was free before.
  pub page_free_lem :
      (u : Updates f words
        (λ j t. if page.address == j then false else t)
        (page_free (some page) f))
      × (u.frames.worries ≡ (
          if taken words page.address then f.worries else f.worries ++ "clearing unset bit" ∷ []))
  unfolding page_free
  page_free_lem =
      let small : page.address < 32 * length words = omega (arith, valid.size) in
      let step = clear_bit_lem valid.holds page.address small in
      (
        record {
          frames = record f {
            page_bitmap = record f.page_bitmap { bits = some step.out };
            worries =
                if taken words page.address
                then f.worries
                else f.worries ++ "clearing unset bit" ∷ [];
          };
          out = step.out;
          returns = rw (test_bit_lem valid.holds page.address small, step.returns);
          valid = record {
            holds = Changes-Holds valid.holds step;
            size = step.same_length ∙ valid.size;
          };
          each = step.each;
          same_count = refl;
        },
        refl,
      )

-- Freeing what was just allocated gives back a bitmap with the same pages in use, and no warning.
pub page_free-page_alloc :
    (page e : Entry) {f g : Frames} (words : List ℕ)
    → IsFrames f words
    → page_alloc (some page) f ≡ ok (some e, g)
    → (h : Frames) × (out : List ℕ) × (page_free (some e) g ≡ ok h)
      × IsFrames h out
      × ((j : ℕ) → taken out j ≡ taken words j)
      × (h.worries ≡ f.worries)
page_free-page_alloc page e {f} {g} words valid run =
    let a = gave page e f g words valid run in
    let (u, quiet) = page_free_lem e a.valid a.below in
    let used : taken a.out e.address ≡ true = ground (arith, a.each e.address) in
    (
      u.frames,
      u.out,
      u.returns,
      u.valid,
      λ j. ground (arith, u.each j, a.each j, a.was_free),
      quiet ∙ rw used a.worries,
    )
