-- ===== src/Stream/Output.antt =====
-- The bytes among what a stream did.
use what_the_event.Common.{◌≡◌, refl, sym, ap, ◌∙◌, List, [], ◌∷◌, ◌++◌, append_assoc}
use what_the_event.Buffer.Extent.{Cell}
use what_the_event.Stream.State.{Effect, sent}

-- The bytes that went out.
abbrev pub output : List Effect → List Cell
output [] = []
output (sent c ∷ es) = c ++ output es
output (_ ∷ es) = output es

pub output-append : (es fs : List Effect) → output (es ++ fs) ≡ output es ++ output fs
output-append [] fs = refl
output-append (sent c ∷ es) fs =
    ap (◌++◌ c) (output-append es fs) ∙ sym (append_assoc c (output es) (output fs))
output-append (Effect.completed c ∷ es) fs = output-append es fs
output-append (Effect.write_failed c ∷ es) fs = output-append es fs
output-append (Effect.available c d ∷ es) fs = output-append es fs
output-append (Effect.read_failed c ∷ es) fs = output-append es fs
output-append (Effect.reached_eof c ∷ es) fs = output-append es fs
output-append (Effect.connected c ∷ es) fs = output-append es fs
output-append (Effect.connect_failed c ∷ es) fs = output-append es fs
output-append (Effect.closed d ∷ es) fs = output-append es fs
