-- ===== src/Examples/Assembly.antt =====
-- Examples for assembler.h.
use mocker.Prelude.{ℕ, ◌≡◌, inr, refl, arith, true, some, [], ◌∷◌}
use mocker.Encode.{encode_b}
use mocker.Encode.Opcode
use mocker.Cpu.State.{init, retire}
use mocker.Cpu.Control.{branch_taken}
use mocker.Cpu.{execute}
use mocker.Assembler.{li_words, patched}
use mocker.Assembler.LoadConstant.{Leaves, li_words-Leaves}
use mocker.Assembler.Labels.{patched-branch}
use mocker.Examples.{two_ecalls, hart0}

-- li t0, 0xDEADBEEF
li_words-Leaves_example : Leaves hart0 two_ecalls 5 0xDEADBEEF (li_words 5 0xDEADBEEF)
li_words-Leaves_example =
    li_words-Leaves hart0 two_ecalls 5 0xDEADBEEF (λ e. omega arith) (omega arith) (omega arith)

-- beq zero, zero, a label 8 bytes back
patched-branch_example :
    (w : ℕ) × (patched (encode_b 0 0 0 Opcode.f3_beq Opcode.branch) 0xFFF8 0x10000 ≡ some (w ∷ []))
    × (execute hart0 two_ecalls w ≡ retire hart0 two_ecalls 0xFFF8)
unfolding init
patched-branch_example =
    patched-branch hart0 two_ecalls 0xFFF8 (omega arith) (omega arith) refl 0 0 Opcode.f3_beq true
      (omega arith) (omega arith) (omega arith) (inr (omega arith, omega arith))
      (unfold branch_taken in refl)
