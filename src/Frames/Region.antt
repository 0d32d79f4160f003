-- ===== src/Frames/Region.antt =====
-- What the two region functions do to each page frame.
use treeos.Base.{
  ℕ, zero, suc, ◌+◌, ◌*◌, ◌/◌, ◌<◌, ◌≡◌, refl, arith, Bool, true, false, ◌&&◌, List, Result, ok,
  some, length, leb, ◌==◌, if◌then◌else◌, ◌∙◌,
}
use treeos.Bitmap.{Bitmap, bitmap_set_bit, bitmap_clear_bit}
use treeos.Bitmap.Bits.{taken, Holds, Changes, set_bit_lem, clear_bit_lem, Changes-Holds}
use treeos.Frames.{
  Frames, pages_of, region_loop, paging_init_region, paging_deinit_region, bitmap_array_size,
}

-- The frames' bitmap is backed by the array of 1024 words `words`.
pub record IsFrames (f : Frames) (words : List ℕ) : Type 0 where
  pub holds : Holds f.page_bitmap words
  pub size : length words ≡ bitmap_array_size

-- Whether page `j` is one of the `size_bits + 1` pages from `base` on.
abbrev pub in_range : ℕ → ℕ → ℕ → Bool
in_range base size_bits j = leb base j && leb j (base + size_bits)

-- `result` is `f` with a new bitmap, in which page `j` is `change j` of what it was.
pub record Updates (f : Frames) (words : List ℕ) (change : ℕ → Bool → Bool) (result : Result Frames)
    : Type 0 where
  pub frames : Frames
  pub out : List ℕ
  pub returns : result ≡ ok frames
  pub valid : IsFrames frames out
  pub each : (j : ℕ) → taken out j ≡ change j (taken words j)
  pub same_count : frames.page_bitmap.word_count ≡ f.page_bitmap.word_count

abbrev Acts : (Bitmap → ℕ → Result Bitmap) → Bool → Type 0
Acts op v =
    (b : Bitmap) (words : List ℕ)
    → Holds b words
    → (i : ℕ) → i < 32 * length words
    → Changes b words (λ j t. if i == j then v else t) (op b i)

-- The loop gives the `size_bits + 1` pages from `base` on the value `v`.
region_loop_lem :
    (op : Bitmap → ℕ → Result Bitmap) (v : Bool)
    → Acts op v
    → (size_bits base : ℕ) {b : Bitmap} {words : List ℕ} → Holds b words
    → base + size_bits < 32 * length words
    → Changes b words
        (λ j t. if in_range base size_bits j then v else t)
        (region_loop op size_bits base b)
unfolding region_loop
region_loop_lem op v acts zero base {b} {words} holds inside =
    let step = acts b words holds base (omega arith) in
    record {
      out = step.out;
      returns = step.returns;
      fit = step.fit;
      same_length = step.same_length;
      each = λ j. ground (arith, step.each j);
    }
region_loop_lem op v acts (suc size_bits) base {b} {words} holds inside =
    let step = acts b words holds base (omega arith) in
    let rest =
      region_loop_lem op v acts size_bits (base + 1) (Changes-Holds holds step)
        (omega (arith, step.same_length)) in
    record {
      out = rest.out;
      returns = rw step.returns rest.returns;
      fit = rest.fit;
      same_length = rest.same_length ∙ step.same_length;
      each = λ j. ground (arith, step.each j, rest.each j);
    }

set-Acts : Acts bitmap_set_bit true
set-Acts b words holds i inside = set_bit_lem holds i inside

clear-Acts : Acts bitmap_clear_bit false
clear-Acts b words holds i inside = clear_bit_lem holds i inside

module _ {f : Frames} {words : List ℕ} (valid : IsFrames f words) (base size : ℕ)
    (inside : base / 4096 + pages_of size < 32768) where
  abbrev region : ℕ → Bool
  region j = in_range (base / 4096) (pages_of size) j

  -- `paging_deinit_region` marks the pages of the region as in use, and the one after it too; no other
  -- page changes.
  pub paging_deinit_region_lem :
      Updates f words (λ j t. if region j then true else t) (paging_deinit_region base size f)
  unfolding paging_deinit_region
  paging_deinit_region_lem =
      let run =
        region_loop_lem bitmap_set_bit true set-Acts (pages_of size) (base / 4096) valid.holds
          (omega (arith, valid.size, inside)) in
      record {
        frames = record f { page_bitmap = record f.page_bitmap { bits = some run.out } };
        out = run.out;
        returns = rw run.returns;
        valid = record {
          holds = Changes-Holds valid.holds run;
          size = run.same_length ∙ valid.size;
        };
        each = run.each;
        same_count = refl;
      }

  -- `paging_init_region` frees the pages of the region, and the one after it too, but never page 0,
  -- which it marks as in use; no other page changes.
  pub paging_init_region_lem :
      Updates f words
        (λ j t. if j == 0 then true else if region j then false else t)
        (paging_init_region base size f)
  unfolding paging_init_region
  paging_init_region_lem =
      let run =
        region_loop_lem bitmap_clear_bit false clear-Acts (pages_of size) (base / 4096) valid.holds
          (omega (arith, valid.size, inside)) in
      let zeroth =
        set_bit_lem (Changes-Holds valid.holds run) 0
          (omega (arith, run.same_length, valid.size)) in
      record {
        frames = record f { page_bitmap = record f.page_bitmap { bits = some zeroth.out } };
        out = zeroth.out;
        returns = rw (run.returns, zeroth.returns);
        valid = record {
          holds = Changes-Holds (Changes-Holds valid.holds run) zeroth;
          size = zeroth.same_length ∙ run.same_length ∙ valid.size;
        };
        each = λ j. ground (arith, zeroth.each j, run.each j);
        same_count = refl;
      }
