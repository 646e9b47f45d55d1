-- ===== src/Commerce/Calls.antt =====
-- Rules for the calls that leave the service during a request.
use sitescore.Common.{
  ℕ, ◌+◌, Bool, true, false, String, Option, none, some, List, [], ◌∷◌, ◌++◌, ◌≡◌, refl, ◌∙◌,
  if◌then◌else◌,
}
use sitescore.Commerce.Rows.{Store}
use sitescore.Common.Action.{
  Action, Error, persistence_unavailable, Result, ok, err, require, raise, lift, raise_if, pure,
  ◌>>=◌, ◌>>◌, calls,
}
use sitescore.Commerce.Session.{World, Env, Call, transaction, commit, send, catch}

-- Whatever is answered, `m` sends these calls.
unfoldable pub Sends : List Call → {A : Type 0} → Action World A → Type 0
Sends cs m = (w : World) → (m w).1.calls ≡ cs ++ w.calls

abbrev pub Quiet : {A : Type 0} → Action World A → Type 0
Quiet m = Sends [] m

pub pure-Quiet : {A : Type 0} (a : A) → Quiet (pure a)
unfolding Sends calls
pure-Quiet a w = refl

pub raise-Quiet : (A : Type 0) (e : Error) → Quiet {A = A} (raise e)
unfolding Sends calls
raise-Quiet A e w = refl

pub lift-Quiet : {A : Type 0} (r : Result A) → Quiet (lift r)
unfolding Sends calls
lift-Quiet r w = refl

pub require-Quiet : {A : Type 0} (r : Option A) (e : Error) → Quiet (require r e)
unfolding Sends calls
require-Quiet none e w = refl
require-Quiet (some a) e w = refl

pub raise_if-Quiet : (b : Bool) (e : Error) → Quiet (raise_if b e)
unfolding Sends calls
raise_if-Quiet true e w = refl
raise_if-Quiet false e w = refl

pub send-Sends : (c : Call) → Sends (c ∷ []) (send c)
unfolding Sends send
send-Sends c w = refl

commit_calls : {A : Type 0} (w : World) (r : Result A × Store) → (commit w r).1.calls ≡ w.calls
unfolding commit
commit_calls w (ok a, s) = refl
commit_calls w (err e, s) = refl

pub transaction-Quiet :
    {A : Type 0} (env : Env) (message : String) (body : ℕ → ℕ → Action Store A)
    → Quiet (transaction env message body)
unfolding Sends transaction
transaction-Quiet env message body w =
    let t = w.transactions in
    let w' : World = record w { transactions = t + 1 } in
    let r = body (env.now t) (env.fresh t) w.store in
    elim (env.reachable t)
      as (λ b.
        (if b then commit w' r else (err (persistence_unavailable message), w')).1.calls
        ≡ w.calls) [ true ↦ commit_calls w' r | false ↦ refl ]

-- Rules for a property of the calls after a chain.
module _ (R : List Call → Type 0) {A B : Type 0} where
  pub after_bind :
      (m : Action World A) (f : A → Action World B) (w : World)
      → R (m w).1.calls
      → ((a : A) → (m w).0 ≡ ok a → R (f a (m w).1).1.calls)
      → R ((m >>= f) w).1.calls
  unfolding calls
  after_bind m f w p h = at (m w).0 h
    where
      at :
          (r : Result A)
          → ((a : A) → r ≡ ok a → R (f a (m w).1).1.calls)
          → R ((lift r >>= f) (m w).1).1.calls
      at (ok a) h = h a refl
      at (err e) h = p

  pub after_then :
      (m : Action World A) (k : Action World B) (w : World)
      → R (m w).1.calls
      → R (k (m w).1).1.calls
      → R ((m >> k) w).1.calls
  unfolding calls
  after_then m k w p h = at (m w).0
    where
      at : (r : Result A) → R ((lift r >> k) (m w).1).1.calls
      at (ok a) = h
      at (err e) = p

pub bind-Sends :
    {A B : Type 0} (cs : List Call) (m : Action World A) (f : A → Action World B)
    → Sends cs m
    → ((a : A) → Quiet (f a))
    → Sends cs (m >>= f)
unfolding Sends
bind-Sends cs m f h g w = after_bind (λ d. d ≡ cs ++ w.calls) m f w (h w) λ a _. g a (m w).1 ∙ h w

pub then-Sends :
    {A B : Type 0} (cs : List Call) (m : Action World A) (k : Action World B)
    → Sends cs m
    → Quiet k
    → Sends cs (m >> k)
unfolding Sends
then-Sends cs m k h g w = after_then (λ d. d ≡ cs ++ w.calls) m k w (h w) (g (m w).1 ∙ h w)

pub catch-Sends :
    {A B : Type 0} (cs : List Call) (m : Action World A) (f : Result A → Action World B)
    → Sends cs m
    → ((r : Result A) → Quiet (f r))
    → Sends cs (catch m f)
unfolding Sends catch
catch-Sends cs m f h g w = g (m w).0 (m w).1 ∙ h w
