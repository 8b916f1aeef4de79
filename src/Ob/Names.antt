-- ===== src/Ob/Names.antt =====
-- The names of types and objects.
use ntx_preview.Base.{ℕ, List, some}
use ntx_preview.Base.Text.{Holds, copied-Holds}
use ntx_preview.Ob.{copy_name, name_bytes}

-- `ObpCopyName` into an array of 32 characters keeps the first 31 characters of the text, or the
-- whole text if it is shorter, with a NUL behind them, whatever the array held.
pub copy_name-Holds :
    (dst : ℕ → ℕ) (text : List ℕ) → Holds 31 text (copy_name dst name_bytes (some text)).1
unfolding copy_name
copy_name-Holds dst text = copied-Holds 31 text dst
