-- ===== src/Status.antt =====
-- The status codes of inc/feral/feralstatus.h and their texts in sec/sec.c.
use Prim.Native.String.{String}
use feral.Base.{ℕ, ◌+◌, Bool, ◌==◌, if◌then◌else◌}

-- The distinct values of `FERALSTATUS`: `STATUS_SUCCESS`, `STATUS_INFORMATIONAL`,
-- `STATUS_WARNING` and `STATUS_ERROR` are the four severities under a second name.
pub data Status : Type 0 where
  success informational was_unlocked : Status
  warning unauthorized_memory_location unsupported_operation : Status
  error stack_guard_violation memory_access_violation : Status
  memory_page_failure memory_page_conflict wrong_volume no_media_in_device : Status
  unrecognized_media nonexistent_sector out_of_memory : Status
  invalid_memory_location invalid_opcode : Status

abbrev pub severity_informational : ℕ
severity_informational = 0x40000000

abbrev pub severity_warning : ℕ
severity_warning = 0x80000000

abbrev pub severity_error : ℕ
severity_error = 0xC0000000

-- The number behind each name.
unfoldable pub code : Status → ℕ
code Status.success = 0
code Status.informational = severity_informational
code Status.was_unlocked = severity_informational + 0x17
code Status.warning = severity_warning
code Status.unauthorized_memory_location = severity_warning + 0xA0
code Status.unsupported_operation = severity_warning + 0xF0A1
code Status.error = severity_error
code Status.stack_guard_violation = severity_error + 0x1
code Status.memory_access_violation = severity_error + 0x5
code Status.memory_page_failure = severity_error + 0x6
code Status.memory_page_conflict = severity_error + 0x7
code Status.wrong_volume = severity_error + 0x12
code Status.no_media_in_device = severity_error + 0x13
code Status.unrecognized_media = severity_error + 0x14
code Status.nonexistent_sector = severity_error + 0x15
code Status.out_of_memory = severity_error + 0x17
code Status.invalid_memory_location = severity_error + 0xA0
code Status.invalid_opcode = severity_error + 0x80001

-- `Status == k` in C compares the numbers.
unfoldable pub is : Status → Status → Bool
unfolding code
is s k = code s == code k

pub ki_get_error_type : Status → String
unfolding code
ki_get_error_type s =
    if is s Status.success
    then "STATUS_SUCCESS"
    else if is s Status.stack_guard_violation
    then "STATUS_STACK_GUARD_VIOLATION"
    else if is s Status.memory_access_violation
    then "STATUS_MEMORY_ACCESS_VIOLATION"
    else if is s Status.memory_page_failure
    then "STATUS_MEMORY_PAGE_FAILURE"
    else if is s Status.invalid_memory_location
    then "STATUS_INVALID_MEMORY_LOCATION"
    else if is s Status.out_of_memory
    then "STATUS_OUT_OF_MEMORY"
    else if is s Status.invalid_opcode
    then "STATUS_INVALID_OPCODE"
    else "OTHER_ERROR"
