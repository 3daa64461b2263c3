-- ===== src/Text/Tests.antt =====
-- The length of a short text, below a bound.
use liebe_os.Prelude.{◌≡◌, ◌==◌, if◌then◌else◌, length}
use liebe_os.Text.{Text, strnlen}
use liebe_os.Text.Compare.{contents, strnlen_lem}

abbrev upper : Text
upper i = if i == 0 then b'A' else if i == 1 then b'b' else 0

strnlen_example : strnlen upper 10 ≡ length (contents 10 upper 0)
strnlen_example = strnlen_lem upper 10
