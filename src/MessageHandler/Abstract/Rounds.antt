-- ===== src/MessageHandler/Abstract/Rounds.antt =====
-- Several rounds of the worker of src/message_handler.c, one after another.
use ultramat.Base.{ℕ, ◌≡◌, refl, ap, ◌∙◌, List, [], ◌∷◌, ◌++◌, Status}
use ultramat.Wire.{Wire}
use ultramat.MessageHandler.{System, Effect, process}
use ultramat.MessageHandler.Linked.{Linked}
use ultramat.MessageHandler.Linked.Rounds.{process-Linked}
use ultramat.MessageHandler.Abstract.{View, view, round}
use ultramat.MessageHandler.Abstract.Refine.{process-view}

-- The rounds at the given times, and what they did.
unfoldable pub rounds : Wire → List ℕ → System → System × List Effect
rounds w [] s = (s, [])
rounds w (now ∷ times) s =
    let (_, s', fx) = process w now s in let (t, fx') = rounds w times s' in (t, fx ++ fx')

-- The same over lists.
unfoldable pub view_rounds : Wire → List ℕ → View → View × List Effect
view_rounds w [] v = (v, [])
view_rounds w (now ∷ times) v =
    let (_, v', fx) = round w now v in let (u, fx') = view_rounds w times v' in (u, fx ++ fx')

pub rounds-Linked :
    (w : Wire) (times : List ℕ) {s : System} → Linked s → Linked (rounds w times s).0
unfolding rounds
rounds-Linked w [] l = l
rounds-Linked w (now ∷ times) l = rounds-Linked w times (process-Linked w now l)

-- What is left after a round and the rest.
abbrev followed : (View → View × List Effect) → Status × View × List Effect → View × List Effect
followed k (r, v, fx) = let (u, fx') = k v in (u, fx ++ fx')

pub rounds-view :
    (w : Wire) (times : List ℕ) (s : System)
    → Linked s
    → (view (rounds w times s).0, (rounds w times s).1) ≡ view_rounds w times (view s)
unfolding rounds view_rounds
rounds-view w [] s l = refl
rounds-view w (now ∷ times) s l =
    let (r, s', fx) = process w now s in
    ap (λ p. (p.0, fx ++ p.1)) (rounds-view w times s' (process-Linked w now l))
    ∙ ap (followed (λ v. view_rounds w times v)) (process-view w now s l)

pub view_rounds-cons :
    (w : Wire) (now : ℕ) (times : List ℕ) (v v' u : View) (r : Status) (fx fx' : List Effect)
    → round w now v ≡ (r, v', fx)
    → view_rounds w times v' ≡ (u, fx')
    → view_rounds w (now ∷ times) v ≡ (u, fx ++ fx')
unfolding view_rounds
view_rounds-cons w now times v v' u r fx fx' e e' =
    ap (followed (λ t. view_rounds w times t)) e ∙ ap (λ p. (p.0, fx ++ p.1)) e'
