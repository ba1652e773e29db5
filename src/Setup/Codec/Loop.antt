-- ===== src/Setup/Codec/Loop.antt =====
-- What the loop over the elements of a message keeps.
use aliro_ccc_core.Base.{List, [], ◌∷◌}
use aliro_ccc_core.Core.{Result, ok, err}
use aliro_ccc_core.Setup.Tlv.{TlvElement}
use aliro_ccc_core.Setup.Codec.{Outcome, after, for_each, with_elements}

after-keeps :
    {P : Type 0} (Keeps : P → Type 0) (m : Outcome P) (k : P → Outcome P)
    → Keeps m.1
    → ((p : P) → Keeps p → Keeps (k p).1)
    → Keeps (after m k).1
after-keeps Keeps (ok u, p) k h step = step p h
after-keeps Keeps (err e, p) k h step = h

-- A predicate on the out parameter that each element's handler keeps, errors included, the loop keeps.
pub for_each-keeps :
    {P : Type 0} (Keeps : P → Type 0) (handle : TlvElement → P → Outcome P)
    → ((elem : TlvElement) (p : P) → Keeps p → Keeps (handle elem p).1)
    → (elements : List TlvElement) (p : P) → Keeps p
    → Keeps (for_each handle elements p).1
unfolding for_each
for_each-keeps Keeps handle step [] p k = k
for_each-keeps Keeps handle step (elem ∷ rest) p k =
    after-keeps Keeps (handle elem p) (for_each handle rest) (step elem p k)
      (λ q kq. for_each-keeps Keeps handle step rest q kq)

pub with_elements-keeps :
    {P : Type 0} (Keeps : P → Type 0) (m : Result (List TlvElement)) (p : P)
    (k : List TlvElement → Outcome P)
    → Keeps p
    → ((elements : List TlvElement) → Keeps (k elements).1)
    → Keeps (with_elements m p k).1
with_elements-keeps Keeps (ok elements) p k h step = step elements
with_elements-keeps Keeps (err e) p k h step = h
