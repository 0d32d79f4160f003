-- ===== src/Trap/Syscall.antt =====
-- What a system call shows.
use treeos.Base.{
  ℕ, ◌^◌, ◌<◌, ◌≡◌, ◌≢◌, refl, arith, true, false, Option, some, List, [], ◌∷◌, ◌++◌, Result, ok,
  ◌==◌, eq→==, ne→==_false, ◌⊎◌, inl, inr, Bool-cases, ==_iff, ==_false→ne, bytes_of, length,
  length-append,
}
use treeos.Interrupt.{Interrupts}
use treeos.Interrupt.Mask.{InSync}
use treeos.Interrupt.Critical.{same_trans}
use treeos.Tty.{Tty, tty_puts, tty_color_screen}
use treeos.Tty.Rows.{OnScreen}
use treeos.Tty.Text.{Prints, ints, tty_puts_color_lem}
use treeos.Format.{word, ltoa, convert, formatted, vsprintf}
use treeos.Format.Length.{length-ltoa}
use treeos.Stdio.Print.{printf-vsprintf}
use treeos.Panic.{ThreadContext}
use treeos.Panic.Report.{shown, Prints-OnScreen}
use treeos.Trap.{syscall_interrupt}

-- "\nreceived syscall ".
abbrev pub received : List ℕ → List ℕ
received rest =
    10 ∷ 114 ∷ 101 ∷ 99 ∷ 101 ∷ 105 ∷ 118 ∷ 101 ∷ 100 ∷ 32 ∷ 115 ∷ 121 ∷ 115 ∷ 99 ∷ 97 ∷ 108 ∷ 108
    ∷ 32 ∷ rest

-- The text that announces a system call.
abbrev pub announcement : ℕ → List ℕ
announcement number = shown (received (ltoa number ++ 10 ∷ []))

-- What was shown: the announcement, and for system call 1 the string and a newline behind it.
pub data Serves (string_at : ℕ → Option (List ℕ)) (c : ThreadContext) (i : Interrupts) (s : Tty)
    (result : Result (Interrupts × Tty)) : Type 0 where
  prints_string :
      (str : List ℕ) (t u : Tty) (after : Interrupts)
      → c.eax ≡ 1
      → string_at c.ecx ≡ some str
      → result ≡ ok (after, u)
      → Prints tty_color_screen s (ints (announcement c.eax) false) t
      → Prints tty_color_screen t (ints str true) u
      → record after { ports = i.ports } ≡ i
      → Serves string_at c i s result
  ignored :
      (t : Tty) (after : Interrupts)
      → c.eax ≢ 1
      → result ≡ ok (after, t)
      → Prints tty_color_screen s (ints (announcement c.eax) false) t
      → record after { ports = i.ports } ≡ i
      → Serves string_at c i s result

module _ (string_at : ℕ → Option (List ℕ)) (c : ThreadContext) (word_eax : c.eax < 2 ^ 32)
    {str : List ℕ} (there : c.eax ≡ 1 → string_at c.ecx ≡ some str) {i : Interrupts}
    (sync : InSync i) {s : Tty} (on : OnScreen s) where
  -- With the mask in step with the controllers and the position on the screen, every system call is announced with its number. Call 1 shows the string that ECX points to, which has to
  -- be there for this call alone, on a line of its own, and no other call does anything.
  pub syscall_interrupt_lem : Serves string_at c i s (syscall_interrupt string_at c (i, s))
  unfolding syscall_interrupt bytes_of vsprintf formatted convert tty_puts
  syscall_interrupt_lem =
      let out = received (ltoa c.eax ++ 10 ∷ []) in
      let short : length out < 512 =
        omega (arith, length-append (ltoa c.eax) (10 ∷ []), length-ltoa c.eax word_eax) in
      let (t, r, prints) =
        printf-vsprintf {s = s} sync on (bytes_of "\nreceived syscall %d\n") (word c.eax ∷ []) out
          refl short in
      elim (dec_eq c.eax 1) [
        | inr other ↦
            ignored t r.after other (rw (r.returns, ne→==_false c.eax 1 other) refl) prints r.same
        | inl one ↦
            let (u, r', prints') =
              tty_puts_color_lem str tty_color_screen true t r.sync (Prints-OnScreen prints on) in
            prints_string str t u r'.after one (there one)
              (rw (r.returns, eq→== c.eax 1 one, there one, r'.returns) refl) prints prints'
              (same_trans i r.after r'.after r.same r'.same)
      ]
    where
      dec_eq : (a b : ℕ) → (a ≡ b) ⊎ (a ≢ b)
      dec_eq a b = elim (Bool-cases (a == b)) [
        | inl e ↦ inl ((==_iff a b).0 e)
        | inr e ↦ inr (==_false→ne a b e)
      ]
