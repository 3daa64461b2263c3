-- ===== src/Stdlib/Tests.antt =====
-- The text of a negative number.
use liebe_os.Prelude.{arith, negsuc}
use liebe_os.Stdlib.{itoa}
use liebe_os.Stdlib.Decimal.{IsNumeral, itoa-IsNumeral}

itoa_example :
    IsNumeral (negsuc 1022) (itoa (negsuc 1022) (λ j. 0)).0 (itoa (negsuc 1022) (λ j. 0)).1
itoa_example = itoa-IsNumeral (negsuc 1022) (λ j. 0) (omega arith)
