-- ===== src/Stop.antt =====
-- `KiStopError` of sec/sec.c and the handlers of kern/arch/x86_64/interrupts.c that print or stop,
-- over the functions that print. Clearing the screen and `VgaPrintln` are arguments, as are the
-- addresses of the strings and what the assembly reads. `none` is a step that stops on its way.
pub mod Report
pub mod Screen
mod Tests
use Prim.Native.String.{String}
use feral.Base.{ℕ, Option, some, List, [], ◌∷◌}
use feral.Base.Fault.{◌>>=◌}
use feral.Memory.{Bytes}
use feral.Status.{Status, code, ki_get_error_type}
use feral.Strings.{ki_get_string_length}
use feral.Print.{KrnlFirmwareFunctions, ki_print_fmt, ki_print_line}

-- The loop at the end, which nothing leaves.
pub data Stopped {ℓ} (S : Type ℓ) : Type ℓ where
  hangs : S → Stopped S

-- Where the strings lie; `literal_at` is for those of `KiGetErrorType`.
pub record StopTexts : Type 0 where
  pub error_msg : ℕ
  pub first_time : ℕ
  pub empty : ℕ
  pub persists : ℕ
  pub bug_check : ℕ
  pub first_registers : ℕ
  pub second_registers : ℕ
  pub control_register : ℕ
  pub dividing : ℕ
  pub unhandled : ℕ
  pub literal_at : String → ℕ

-- The locals that the assembly sets, as it sets them: `bp` gets cr3, and `cr3` gets nothing.
pub record Registers : Type 0 where
  pub a : ℕ
  pub b : ℕ
  pub c : ℕ
  pub d : ℕ
  pub sp : ℕ
  pub bp : ℕ
  pub cr3 : ℕ

module _ {ℓ} {S : Type ℓ} (functions : KrnlFirmwareFunctions S) (bound place fuel : ℕ) (m : Bytes)
    (texts : StopTexts) where
  -- Calls whose status nobody looks at.
  unfoldable pub print_fmt : ℕ → List ℕ → S → Option S
  print_fmt fmt args s = do (p, s') ← ki_print_fmt functions bound place fuel m fmt args s; some s'

  unfoldable pub print_line : ℕ → S → Option S
  print_line string s = do (p, s') ← ki_print_line functions bound place m string s; some s'

  unfoldable pub ki_stop_error :
      (S → Option S) → (ℕ → ℕ → S → Option S) → Registers → Status → S → Option (Stopped S)
  ki_stop_error blank_screen vga_println r status s = do
    s₁ ← blank_screen s
    (measured, length) ← ki_get_string_length bound m texts.error_msg 0
    s₂ ← vga_println texts.error_msg length s₁
    s₃ ← print_fmt texts.first_time [] s₂
    s₄ ← print_line texts.empty s₃
    s₅ ← print_fmt texts.persists [] s₄
    s₆ ←
        print_fmt texts.bug_check (code status ∷ texts.literal_at (ki_get_error_type status) ∷ [])
          s₅
    s₇ ← print_fmt texts.first_registers (r.a ∷ r.b ∷ r.c ∷ []) s₆
    s₈ ← print_fmt texts.second_registers (r.d ∷ r.sp ∷ r.bp ∷ []) s₇
    s₉ ← print_fmt texts.control_register (r.cr3 ∷ []) s₈
    some (Stopped.hangs s₉)

  unfoldable divide_by_zero : S → Option S
  divide_by_zero s = print_fmt texts.dividing [] s

  unfoldable generic_handler : S → Option S
  generic_handler s = print_fmt texts.unhandled [] s

  unfoldable double_fault_handler :
      (S → Option S) → (ℕ → ℕ → S → Option S) → Registers → S → Option (Stopped S)
  double_fault_handler blank_screen vga_println r s =
      ki_stop_error blank_screen vga_println r Status.error s

  unfoldable page_fault_handler :
      (S → Option S) → (ℕ → ℕ → S → Option S) → Registers → S → Option (Stopped S)
  page_fault_handler blank_screen vga_println r s =
      ki_stop_error blank_screen vga_println r Status.error s
