-- ===== src/Orders/Steps.antt =====
-- The done steps of an order (`cb_cmd_step_done` of src/callbacks_position.c).
use Prim.Native.String.{String}
use ultramat.Base.{
  ℕ, zero, suc, ◌+◌, ◌≤◌, ◌<◌, ◌≡◌, refl, ap, false, List, [], ◌∷◌, ◌++◌, some, Outcome, returns,
  ◌>>=◌, arith, length, ◌==◌, u16, true,
}
use ultramat.Drinks.{Recipe}
use ultramat.Proto.{Response}
use ultramat.Orders.{
  Page, Modal, info_modal, Bar, reached, cmd_step_done, step_done, finished, locked,
  error_serial_communication, cmd_hello_there_done,
}

abbrev pub show : List Modal → Page × List Modal → Page × List Modal
show before (p, ms) = (p, before ++ ms)

-- So many done steps, one after another.
unfoldable pub steps_done : ℕ → Page → Outcome (Page × List Modal)
steps_done zero p = returns (p, [])
steps_done (suc n) p = cmd_step_done p >>= λ (q, ms). steps_done n q >>= λ r. returns (show ms r)

-- The page with so many steps of its recipe done.
abbrev pub counted : ℕ → Bar → Page → Page
counted n bar p = record p { recipe_step_done_counter = n; progress = bar }

abbrev pub drink_ready : Modal
drink_ready = info_modal "Drink ist fertig!"

cmd_step_done-next :
    (p : Page) (rec : Recipe)
    → p.active_recipe ≡ some rec
    → length rec.ing_pairs < 65535
    → p.recipe_step_done_counter < length rec.ing_pairs
    → cmd_step_done p
      ≡ returns (
        counted
            (p.recipe_step_done_counter + 1)
            (reached (p.recipe_step_done_counter + 1) (length rec.ing_pairs + 1))
            p,
        [],
      )
unfolding cmd_step_done step_done
cmd_step_done-next p rec e small more =
    let moves : u16 (length rec.ing_pairs + 1) ≡ length rec.ing_pairs + 1 = omega arith in
    let counter : u16 (p.recipe_step_done_counter + 1) ≡ p.recipe_step_done_counter + 1 =
      omega arith in
    let not_all : ((p.recipe_step_done_counter + 1) == (length rec.ing_pairs + 1)) ≡ false =
      ground arith in
    rw (e, moves, counter, not_all)

cmd_step_done-last :
    (p : Page) (rec : Recipe)
    → p.active_recipe ≡ some rec
    → length rec.ing_pairs < 65535
    → p.recipe_step_done_counter ≡ length rec.ing_pairs
    → cmd_step_done p ≡ returns (finished p, drink_ready ∷ [])
unfolding cmd_step_done step_done
cmd_step_done-last p rec e small all =
    let moves : u16 (length rec.ing_pairs + 1) ≡ length rec.ing_pairs + 1 = omega arith in
    let counter : u16 (p.recipe_step_done_counter + 1) ≡ p.recipe_step_done_counter + 1 =
      omega arith in
    let hit : ((p.recipe_step_done_counter + 1) == (length rec.ing_pairs + 1)) ≡ true =
      ground arith in
    rw (e, moves, counter, hit)

-- The page has a recipe of less than 65535 pairs, and no more steps are done, with those counted
-- before, than it has pairs. Then they are counted, nothing is shown, and the page keeps everything
-- but the counter and the progress bar: it stays locked.
steps_done_before :
    (k : ℕ) (p : Page) (rec : Recipe)
    → p.active_recipe ≡ some rec
    → length rec.ing_pairs < 65535
    → p.recipe_step_done_counter + k ≤ length rec.ing_pairs
    → (bar : Bar) × (steps_done k p ≡ returns (counted (p.recipe_step_done_counter + k) bar p, []))
unfolding steps_done
steps_done_before zero p rec e small more =
    (p.progress, ap (λ n. returns (counted n p.progress p, [])) (omega arith))
steps_done_before (suc k) p rec e small more =
    let c = p.recipe_step_done_counter in
    let bar = reached (c + 1) (length rec.ing_pairs + 1) in
    let (bar', r) = steps_done_before k (counted (c + 1) bar p) rec e small (omega arith) in
    (
      bar',
      rw (cmd_step_done-next p rec e small (omega arith), r)
          (ap (λ n. returns (counted n bar' p, [])) (omega arith)),
    )

-- The page has a recipe of less than 65535 pairs, and as many steps are done, with those counted
-- before, as it has pairs, and one more for the final step. Then the order button and the recipe box
-- can be used again, the counter is back at 0, and the user is told once that the drink is ready.
pub steps_done_finish :
    (k : ℕ) (p : Page) (rec : Recipe)
    → p.active_recipe ≡ some rec
    → length rec.ing_pairs < 65535
    → p.recipe_step_done_counter + k ≡ length rec.ing_pairs
    → steps_done (suc k) p ≡ returns (finished p, drink_ready ∷ [])
unfolding steps_done
steps_done_finish zero p rec e small all = rw (cmd_step_done-last p rec e small (omega arith))
steps_done_finish (suc k) p rec e small all =
    let c = p.recipe_step_done_counter in
    let q = counted (c + 1) (reached (c + 1) (length rec.ing_pairs + 1)) p in
    rw (
      cmd_step_done-next p rec e small (omega arith),
      steps_done_finish k q rec e small (omega arith),
    )

-- The page after an error of the worker, a new connection, the choice of a recipe and an order of it
-- that is accepted.
abbrev pub ordered_again : String → Response → Recipe → Page → Page
unfolding error_serial_communication cmd_hello_there_done
ordered_again text resp rec p =
    let failed = (error_serial_communication text p).0 in
    let connected = (cmd_hello_there_done resp failed).0 in
    locked (record connected { active_recipe = some rec })

-- An error of the worker in the middle of an order leaves the counter. After a new connection, the
-- next order of a recipe with at least as many pairs as steps were counted is said to be ready after
-- as many steps less: with `k + 1` steps done, if `counted + k` is the number of its pairs.
pub steps_done_after_error :
    (k : ℕ) (text : String) (resp : Response) (p : Page) (rec : Recipe)
    → length rec.ing_pairs < 65535
    → p.recipe_step_done_counter + k ≡ length rec.ing_pairs
    → let q = ordered_again text resp rec p in
      steps_done (suc k) q ≡ returns (finished q, drink_ready ∷ [])
unfolding error_serial_communication cmd_hello_there_done
steps_done_after_error k text resp p rec small all =
    steps_done_finish k (ordered_again text resp rec p) rec refl small all
