-- ===== src/Plan/Silent.antt =====
-- What the calls of src/azure_sql_mcp/plan_enforcement.py send to the database.
use mathlib.Core.List.{append_assoc, append-nil}
use azure_sql_mcp.Shared.{
  ℕ, ◌≡◌, refl, sym, ap, ◌∙◌, Bool, true, false, List, [], ◌∷◌, ◌++◌, All, take, ltb,
}
use azure_sql_mcp.Shared.Text.{Text, codes}
use azure_sql_mcp.Shared.Raising.{Raising, require, ◌>>=◌, ◌>>◌}
use azure_sql_mcp.Admin.Chars.{CharTable}
use azure_sql_mcp.Admin.Preview.{Redaction}
use azure_sql_mcp.Admin.Audit.{AdminAction, Dispatch, Answer, World}
use azure_sql_mcp.Admin.Execution.{
  WritePolicy, Payload, Result, returned, refused, raised, preview_action,
}
use azure_sql_mcp.Admin.Execution.Trace.{IsHeld, preview_action_lem}
use azure_sql_mcp.Plan.{Platform, Error, invalid_value, permission, Action, review}
use azure_sql_mcp.Plan.Actions.{
  word_of, Reply, or_fails, and_then, build_action, dry_run_action, apply_action, tick_each, tick,
  Call, dry_runs, applies, ticks, serve,
}

IsHeld-refl : (w : World) → IsHeld w w
IsHeld-refl w = record { sent = refl; lines = []; logged = sym (append-nil w.log); passive = tt }

All-append {ℓ κ} :
    {A : Type ℓ} (P : A → Type κ) (xs ys : List A) → All P xs → All P ys → All P (xs ++ ys)
All-append P [] ys h k = k
All-append P (x ∷ xs) ys h k = (h.0, All-append P xs ys h.1 k)

IsHeld-trans : (u v w : World) → IsHeld u v → IsHeld v w → IsHeld u w
IsHeld-trans u v w h k = record {
  sent = k.sent ∙ h.sent;
  lines = h.lines ++ k.lines;
  logged = k.logged ∙ ap (λ l. l ++ k.lines) h.logged ∙ append_assoc u.log h.lines k.lines;
  passive = All-append _ h.lines k.lines h.passive k.passive;
}

-- A call that raises before it starts changes nothing.
or_fails-IsHeld :
    (m : Raising Error (World → Reply × World)) (w : World)
    → ((k : World → Reply × World) → m ≡ Raising.returned k → IsHeld w (k w).1)
    → IsHeld w (or_fails m w).1
or_fails-IsHeld (Raising.raised e) w h = IsHeld-refl w
or_fails-IsHeld (Raising.returned k) w h = h k refl

and_then-IsHeld :
    (w : World) (out : Result × World) (next : Payload → World → Reply × World)
    → IsHeld w out.1
    → ((x : Payload) → IsHeld out.1 (next x out.1).1)
    → IsHeld w (and_then out next).1
and_then-IsHeld w (returned x, v) next h k = IsHeld-trans w v (next x v).1 h (k x)
and_then-IsHeld w (refused e, v) next h k = h
and_then-IsHeld w (raised e, v) next h k = h

-- An action that is built, and what is done with it.
built-IsHeld :
    (m : Raising Error AdminAction) (next : AdminAction → World → Reply × World) (w : World)
    → ((a : AdminAction) → IsHeld w (next a w).1)
    → IsHeld w (or_fails (m >>= λ a. Raising.returned (next a)) w).1
built-IsHeld (Raising.raised e) next w h = IsHeld-refl w
built-IsHeld (Raising.returned a) next w h = h a

required-IsHeld :
    (b : Bool) (e : Error) (m : Raising Error (World → Reply × World)) (w : World)
    → (b ≡ true → IsHeld w (or_fails m w).1)
    → IsHeld w (or_fails (require b e >> m) w).1
required-IsHeld true e m w h = h refl
required-IsHeld false e m w h = IsHeld-refl w

module _ (strip_lower : Text → Text) (str_of : ℕ → Text) ⦃chars : CharTable⦄ (r : Redaction)
    (full : Bool) (policy : WritePolicy) (executor : Dispatch → Answer) where
  tick_each-IsHeld :
      {S : Type 0} (database : Text) (cs : List (Action S)) (done : List Payload) (w : World)
      → IsHeld w (tick_each strip_lower str_of r full policy executor database cs done w).1
  unfolding tick_each
  tick_each-IsHeld database [] done w = IsHeld-refl w
  tick_each-IsHeld database (c ∷ cs) done w =
      let later = tick_each-IsHeld database cs in
      built-IsHeld
        (build_action strip_lower str_of database (word_of c.kind) c.query_id c.plan_id
          (codes "plan_enforcer_tick"))
        _ w
        (λ a.
          and_then-IsHeld w (preview_action r full policy executor a w) _
            (preview_action_lem r full policy executor a w)
            (λ x. later (done ++ x ∷ []) (preview_action r full policy executor a w).1))

  found-IsHeld :
      {A : Type 0} (m : Raising Error A) (next : A → World → Reply × World) (w : World)
      → ((x : A) → IsHeld w (next x w).1)
      → IsHeld w (or_fails (m >>= λ x. Raising.returned (next x)) w).1
  found-IsHeld (Raising.raised e) next w h = IsHeld-refl w
  found-IsHeld (Raising.returned x) next w h = h x

  -- Whatever the call, its flags and the write policy, the service sends nothing, and leaves no audit
  -- line but of previews and blocks.
  pub serve-IsHeld :
      (p : Platform) (call : Call strip_lower str_of r full policy executor p) (w : World)
      → IsHeld w (serve strip_lower str_of r full policy executor p call w).1
  unfolding serve dry_run_action apply_action tick
  serve-IsHeld p (dry_runs database action query plan) w =
      built-IsHeld
        (build_action strip_lower str_of database action query plan (codes "dry_run_plan_action")) _
        w (λ a. preview_action_lem r full policy executor a w)
  serve-IsHeld p (applies database action query plan true) w =
      built-IsHeld
        (build_action strip_lower str_of database action query plan (codes "apply_plan_action")) _ w
        (λ a. preview_action_lem r full policy executor a w)
  serve-IsHeld p (applies database action query plan false) w = IsHeld-refl w
  serve-IsHeld p (ticks database window_minutes max_actions dry_run rs fs) w =
      required-IsHeld (ltb 0 max_actions) invalid_value _ w (λ some_wanted.
        required-IsHeld dry_run permission _ w (λ dry.
          found-IsHeld (review p window_minutes max_actions rs fs) _ w
            (λ v. tick_each-IsHeld database (take max_actions v.recommended_actions) [] w)))
