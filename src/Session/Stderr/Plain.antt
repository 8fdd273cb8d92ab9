-- ===== src/Session/Stderr/Plain.antt =====
-- src-tauri/src/agent/session_actor.rs: what `strip_ansi` leaves.
use Prim.Native.Char.{code}
use open_covibe_web.Common.{String, false, ◌≡◌, refl, arith}
use open_covibe_web.Session.Stderr.{Mode, plain, escaped, csi, is_escape, strip, strip_ansi}

-- No character of the text is ESC.
abbrev pub Plain : String → Type 0
Plain String.[] = Unit
Plain (String.◌∷◌ c s) = (is_escape (code c) ≡ false) × Plain s

strip-Plain : (m : Mode) (s : String) → Plain (strip m s)
unfolding strip
strip-Plain plain String.[] = tt
strip-Plain escaped String.[] = tt
strip-Plain csi String.[] = tt
strip-Plain plain (String.◌∷◌ c s) = ground (arith, strip-Plain plain s, strip-Plain escaped s)
strip-Plain escaped (String.◌∷◌ c s) =
    ground (arith, strip-Plain plain s, strip-Plain escaped s, strip-Plain csi s)
strip-Plain csi (String.◌∷◌ c s) = ground (arith, strip-Plain plain s, strip-Plain csi s)

strip-id : (s : String) → Plain s → strip plain s ≡ s
unfolding strip
strip-id String.[] h = refl
strip-id (String.◌∷◌ c s) h = ground (arith, strip-id s h.1)

-- What `strip_ansi` leaves has no ESC character, and stripping it again changes nothing.
pub strip_ansi-Plain :
    (s : String) → Plain (strip_ansi s) × (strip_ansi (strip_ansi s) ≡ strip_ansi s)
unfolding strip_ansi
strip_ansi-Plain s = (strip-Plain plain s, strip-id (strip plain s) (strip-Plain plain s))
