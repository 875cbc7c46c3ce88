-- ===== src/Base/Utf8.antt =====
-- `Buffer.from(text, 'utf8')`
use Prim.Native.Char.{code}
use Prim.Native.Nat.{ℕ, ◌+◌, ◌/◌, ◌%◌}
use Prim.Native.String.{String}
use mathlib.Core.List.{[], ◌∷◌, ◌++◌}
use nagarik_signals.Base.Tests.{ltb, if◌then◌else◌}
use nagarik_signals.Base.Text.{Bytes}

abbrev trailing : ℕ → ℕ
trailing c = 128 + c % 64

-- One character, in one to four bytes.
unfoldable pub utf8_char : ℕ → Bytes
utf8_char c =
    if ltb c 128
    then c ∷ []
    else if ltb c 2_048
    then (192 + c / 64) ∷ trailing c ∷ []
    else if ltb c 65_536
    then (224 + c / 4_096) ∷ trailing (c / 64) ∷ trailing c ∷ []
    else (240 + c / 262_144) ∷ trailing (c / 4_096) ∷ trailing (c / 64) ∷ trailing c ∷ []

unfoldable pub utf8 : String → Bytes
utf8 String.[] = []
utf8 (String.◌∷◌ c s) = utf8_char (code c) ++ utf8 s
