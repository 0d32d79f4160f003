-- ===== src/Frames/Pool.antt =====
-- The frame allocator as the set of the pages in use: `page_alloc` and `page_free` implement it.
use treeos.Base.{
  ℕ, ◌<◌, ◌≡◌, refl, Bool, true, false, Option, none, some, List, [], ◌∷◌, Result, ok, ◌>>=◌, ◌==◌,
  if◌then◌else◌, ◌*◌, subst,
}
use treeos.Bitmap.Bits.{taken}
use treeos.Frames.{Frames, Entry, page_alloc, page_free}
use treeos.Frames.Region.{IsFrames}
use treeos.Frames.Alloc.{Allocates, allocated, exhausted, page_alloc_lem, page_free_lem}

-- What a client asks for.
pub data Request : Type 0 where
  alloc : Request
  free : ℕ → Request

-- A step of the abstract allocator with `count` pages: which of the free pages it gives is open.
pub data Step (count : ℕ) (used used' : ℕ → Bool) : Request → Option ℕ → Type 0 where
  gives :
      (p : ℕ)
      → p < count
      → used p ≡ false
      → ((j : ℕ) → used' j ≡ (if p == j then true else used j))
      → Step count used used' alloc (some p)
  refuses :
      ((j : ℕ) → j < count → used j ≡ true)
      → ((j : ℕ) → used' j ≡ used j)
      → Step count used used' alloc none
  frees :
      (p : ℕ)
      → ((j : ℕ) → used' j ≡ (if p == j then false else used j))
      → Step count used used' (free p) none

-- A run of the abstract allocator, with its answers.
pub data Run (count : ℕ) : (ℕ → Bool) → List Request → List (Option ℕ) → (ℕ → Bool) → Type 0 where
  done : {used : ℕ → Bool} → Run count used [] [] used
  next :
      {used used' used'' : ℕ → Bool} {r : Request} {rs : List Request} {a : Option ℕ}
      {given : List (Option ℕ)}
      → Step count used used' r a
      → Run count used' rs given used''
      → Run count used (r ∷ rs) (a ∷ given) used''

-- The pages that are freed are pages of the bitmap.
abbrev pub Asks : List Request → Type 0
Asks [] = Unit {0}
Asks (alloc ∷ rs) = Asks rs
Asks (free p ∷ rs) = (p < 32768) × Asks rs

module _ (page : Entry) where
  -- The requests as calls, with the page's number in `page`.
  abbrev pub serve : Request → Frames → Result (Option ℕ × Frames)
  serve alloc f = page_alloc (some page) f >>= λ (e, g).
      ok (elim e [ none ↦ none | some d ↦ some d.address ], g)
  serve (free p) f = page_free (some (record page { address = p })) f >>= λ g. ok (none, g)

  abbrev pub serve_all : List Request → Frames → Result (List (Option ℕ) × Frames)
  serve_all [] f = ok ([], f)
  serve_all (r ∷ rs) f = serve r f >>= λ (a, g). serve_all rs g >>= λ (given, h). ok (a ∷ given, h)

-- What a run of the code does is a run of the abstract allocator on the pages in use.
pub record Implements (count : ℕ) (words : List ℕ) (rs : List Request)
    (result : Result (List (Option ℕ) × Frames)) : Type 0 where
  pub answers : List (Option ℕ)
  pub after : Frames
  pub out : List ℕ
  pub returns : result ≡ ok (answers, after)
  pub valid : IsFrames after out
  pub run : Run count (taken words) rs answers (taken out)

module _ (page : Entry) where
  -- An answer of `page_alloc` is a step of the abstract allocator.
  alloc-Step :
      {f : Frames} {words : List ℕ}
      → IsFrames f words
      → (a : Option ℕ) × (g : Frames) × (out : List ℕ) × (serve page alloc f ≡ ok (a, g))
        × IsFrames g out
        × (g.page_bitmap.word_count ≡ f.page_bitmap.word_count)
        × Step (f.page_bitmap.word_count * 32) (taken words) (taken out) alloc a
  alloc-Step {f} {words} valid = go (page_alloc_lem page valid)
    where
      go :
          Allocates page f words (page_alloc (some page) f)
          → (a : Option ℕ) × (g : Frames) × (out : List ℕ) × (serve page alloc f ≡ ok (a, g))
            × IsFrames g out
            × (g.page_bitmap.word_count ≡ f.page_bitmap.word_count)
            × Step (f.page_bitmap.word_count * 32) (taken words) (taken out) alloc a
      go (allocated p g out r lt clear before valid' each count worries) =
          (some p, g, out, rw r refl, valid', count, gives p lt clear each)
      go (exhausted r all) = (none, f, words, rw r refl, valid, refl, refuses all (λ j. refl))

  -- However a client mixes its requests, `page_alloc` and `page_free` return, and their answers are
  -- those of an allocator that gives a free page, any of them, and refuses only when none is left.
  pub serve_all-Implements :
      (rs : List Request) (f : Frames) (words : List ℕ)
      → IsFrames f words
      → Asks rs
      → Implements (f.page_bitmap.word_count * 32) words rs (serve_all page rs f)
  serve_all-Implements [] f words valid asks = record {
    answers = [];
    after = f;
    out = words;
    returns = refl;
    valid = valid;
    run = done;
  }
  serve_all-Implements (alloc ∷ rs) f words valid asks =
      let (a, g, out, returns, valid', count, step) = alloc-Step valid in
      let rest = serve_all-Implements rs g out valid' asks in
      record {
        answers = a ∷ rest.answers;
        after = rest.after;
        out = rest.out;
        returns = rw (returns, rest.returns) refl;
        valid = rest.valid;
        run = next step (
            subst (λ (n : ℕ). Run (n * 32) (taken out) rs rest.answers (taken rest.out)) count
              rest.run);
      }
  serve_all-Implements (free p ∷ rs) f words valid (small, asks) =
      let (u, quiet) = page_free_lem (record page { address = p }) valid small in
      let rest = serve_all-Implements rs u.frames u.out u.valid asks in
      record {
        answers = none ∷ rest.answers;
        after = rest.after;
        out = rest.out;
        returns = rw (u.returns, rest.returns) refl;
        valid = rest.valid;
        run = next (frees p u.each) (
            subst (λ (n : ℕ). Run (n * 32) (taken u.out) rs rest.answers (taken rest.out))
              u.same_count rest.run);
      }
