-- ===== src/Panic/Registers.antt =====
-- How much `strcat_registers` appends.
use treeos.Base.{
  ℕ, ◌+◌, ◌*◌, ◌^◌, ◌≤◌, ◌<◌, ◌≡◌, refl, arith, true, List, [], ◌∷◌, ◌++◌, Result, ok, ◌>>=◌,
  length, length-append, take-append, bytes_of, ◌∙◌, ap,
}
use mathlib.Core.List.{append_assoc}
use treeos.Format.Length.{takes, AllWords, vsprintf_bound}
use treeos.Panic.{ThreadContext, append_line, strcat_registers}

-- The buffer was extended by at most `n` bytes.
pub record Extends (n : ℕ) (buf : List ℕ) (result : Result (List ℕ)) : Type 0 where
  pub more : List ℕ
  pub returns : result ≡ ok (buf ++ more)
  pub short : length more ≤ n

append_line_lem :
    (format ws buf : List ℕ)
    → takes format (length ws) ≡ true
    → AllWords ws
    → Extends (length format + 9 * length ws) buf (append_line format ws buf)
unfolding append_line
append_line_lem format ws buf t words =
    let (out, returns, short) = vsprintf_bound format ws t words in
    record { more = out; returns = rw (returns, take-append out (0 ∷ [])) refl; short = short }

-- The fields of a context are words.
pub record IsContext (c : ThreadContext) : Type 0 where
  pub gs : c.gs < 2 ^ 32
  pub fs : c.fs < 2 ^ 32
  pub es : c.es < 2 ^ 32
  pub ds : c.ds < 2 ^ 32
  pub edi : c.edi < 2 ^ 32
  pub esi : c.esi < 2 ^ 32
  pub ebp : c.ebp < 2 ^ 32
  pub esp : c.esp < 2 ^ 32
  pub ebx : c.ebx < 2 ^ 32
  pub edx : c.edx < 2 ^ 32
  pub ecx : c.ecx < 2 ^ 32
  pub eax : c.eax < 2 ^ 32
  pub int_num : c.int_num < 2 ^ 32
  pub error_code : c.error_code < 2 ^ 32
  pub eip : c.eip < 2 ^ 32
  pub cs : c.cs < 2 ^ 32
  pub eflags : c.eflags < 2 ^ 32
  pub user_ss : c.user_ss < 2 ^ 32

Extends-bind :
    {n k : ℕ} {buf : List ℕ} {first : Result (List ℕ)} {next : List ℕ → Result (List ℕ)}
    → Extends n buf first
    → ((buf : List ℕ) → Extends k buf (next buf))
    → Extends (n + k) buf (first >>= next)
Extends-bind {buf = buf} p q =
    let r = q (buf ++ p.more) in
    record {
      more = p.more ++ r.more;
      returns = rw p.returns (r.returns ∙ (ap ok (append_assoc buf p.more r.more)));
      short = omega (arith, length-append p.more r.more, p.short, r.short);
    }

-- The registers are appended to the buffer, and take at most 299 bytes.
pub strcat_registers_bound :
    (buf : List ℕ) (c : ThreadContext) → IsContext c → Extends 299 buf (strcat_registers buf c)
unfolding strcat_registers bytes_of
strcat_registers_bound buf c h =
    Extends-bind {n = 66} {k = 233}
      (append_line_lem _ _ buf refl (h.eax, (h.ebx, (h.ecx, (h.edx, tt)))))
      λ buf.
        Extends-bind {n = 50} {k = 183} (append_line_lem _ _ buf refl (h.ebp, (h.esi, (h.edi, tt))))
          λ buf.
            Extends-bind {n = 62} {k = 121}
              (append_line_lem _ _ buf refl (h.ds, (h.es, (h.fs, (h.gs, tt)))))
              λ buf.
                Extends-bind {n = 33} {k = 88} (append_line_lem _ _ buf refl (h.cs, (h.eip, tt)))
                  λ buf.
                    Extends-bind {n = 33} {k = 55}
                      (append_line_lem _ _ buf refl (h.user_ss, (h.esp, tt)))
                      λ buf.
                        Extends-bind {n = 21} {k = 34} (append_line_lem _ _ buf refl (h.eflags, tt))
                          λ buf. append_line_lem _ _ buf refl (h.int_num, (h.error_code, tt))
