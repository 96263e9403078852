-- ===== src/Controller/Steady.antt =====
-- Code of src/katydid/controller.py that keeps what its log has shown: the rules.
use katydid.Base.{
  After, Bool, Caught, Exception, Exec, List, Result, String, Triple, Triple-attempt, Triple-before,
  Triple-bind, Triple-modify, Triple-weaken, [], arith, attempt, err, false, gets, if◌then◌else◌,
  lift, modify, ok, pure, raise, refl, refuse, require, subst, true, ℕ, ◌>>=◌, ◌∷◌, ◌≡◌,
}
use katydid.Controller.Guards.{Fact, allowed, ever, is_guarded}
use katydid.Controller.Setting.{Entry, GitWorkspace, Plan, Work, World}
use katydid.Controller.Steps.{ask, call_store, note, observe, put, read_diff_of, run_checked}
use katydid.Json.{Fields, Value}
use katydid.Store.Schema.{Db}

-- The log is guarded, and the facts were true of entries in it.
abbrev pub Holds : List Fact → Work → Type 0
Holds [] w = is_guarded w.log ≡ true
Holds (f ∷ fs) w = (ever f w.log ≡ true) × Holds fs w

abbrev pub Safe : Exception → Work → Type 0
Safe e w = is_guarded w.log ≡ true

pub Holds-Safe : (F : List Fact) (w : Work) → Holds F w → is_guarded w.log ≡ true
Holds-Safe [] w h = h
Holds-Safe (f ∷ fs) w (e, h) = Holds-Safe fs w h

pub same_log : (F : List Fact) (v w : Work) → v.log ≡ w.log → Holds F v → Holds F w
same_log [] v w e h = subst (λ l. is_guarded l ≡ true) e h
same_log (f ∷ fs) v w e (here, h) = (subst (λ l. ever f l ≡ true) e here, same_log fs v w e h)

pub add_entry :
    (F : List Fact) (e : Entry) (w : Work)
    → allowed e w.log ≡ true
    → Holds F w
    → Holds F (record w { log = e ∷ w.log })
add_entry [] e w a h = ground arith
add_entry (f ∷ fs) e w a (here, h) = (ground arith, add_entry fs e w a h)

module _ {A : Type 0} where
  pub record Steady (m : Exec Work A) : Type 0 where
    pub keeps : (F : List Fact) → Triple (Holds F) m (λ _. Holds F) Safe

  After-quiet :
      (F : List Fact) (w : Work) (r : Result A × Work)
      → w.log ≡ r.1.log
      → Holds F w
      → After (λ _. Holds F) Safe r
  After-quiet F w (ok a, v) e h = same_log F w v e h
  After-quiet F w (err x, v) e h = Holds-Safe F v (same_log F w v e h)

  pub Steady-quiet : (m : Exec Work A) → ((w : Work) → w.log ≡ (m w).1.log) → Steady m
  Steady-quiet m q = record { keeps = λ F. record { holds = λ w h. After-quiet F w (m w) (q w) h } }

  pub Steady-if : (b : Bool) (m n : Exec Work A) → Steady m → Steady n → Steady (if b then m else n)
  Steady-if true m n h k = h
  Steady-if false m n h k = k

  pub Steady-pure : (a : A) → Steady (pure a)
  unfolding ◌>>=◌
  Steady-pure a = Steady-quiet _ (λ w. refl)

  pub Steady-raise : (e : Exception) → Steady (raise e)
  unfolding ◌>>=◌
  Steady-raise e = Steady-quiet _ (λ w. refl)

  pub Steady-lift : (r : Result A) → Steady (lift r)
  unfolding ◌>>=◌
  Steady-lift r = Steady-quiet _ (λ w. refl)

  pub Steady-gets : (g : Work → A) → Steady (gets g)
  unfolding ◌>>=◌
  Steady-gets g = Steady-quiet _ (λ w. refl)

  pub Steady-ask : (f : ℕ → Result A) → Steady (ask f)
  unfolding ask
  Steady-ask f = Steady-quiet _ (λ w. refl)

  -- The log has one entry more.
  After-entry :
      (F : List Fact) (e : Entry) (w v : Work) (r : Result A)
      → e ∷ w.log ≡ v.log
      → ((log : List Entry) → allowed e log ≡ true)
      → Holds F w
      → After (λ _. Holds F) Safe (r, v)
  After-entry F e w v (ok a) same free h =
      same_log F (record w { log = e ∷ w.log }) v same (add_entry F e w (free w.log) h)
  After-entry F e w v (err x) same free h =
      Holds-Safe F v
        (same_log F (record w { log = e ∷ w.log }) v same (add_entry F e w (free w.log) h))

  pub Steady-call_store : (world : World) (f : ℕ → Exec Db A) → Steady (call_store world f)
  unfolding call_store
  Steady-call_store world f = record {
    keeps = λ F. record { holds = λ w h. After-entry F _ w _ _ refl (λ log. refl) h };
  }

pub Steady-require : (b : Bool) (e : Exception) → Steady (require b e)
unfolding ◌>>=◌
Steady-require true e = Steady-quiet _ (λ w. refl)
Steady-require false e = Steady-quiet _ (λ w. refl)

pub Steady-refuse : (b : Bool) (e : Exception) → Steady (refuse b e)
unfolding ◌>>=◌
Steady-refuse true e = Steady-quiet _ (λ w. refl)
Steady-refuse false e = Steady-quiet _ (λ w. refl)

pub Steady-put : (key : String) (value : Value) → Steady (put key value)
unfolding put ◌>>=◌
Steady-put key value = Steady-quiet _ (λ w. refl)

pub Steady-evidence :
    (g : Fields → Fields) → Steady (modify (λ w. record w { evidence = g w.evidence }))
unfolding ◌>>=◌
Steady-evidence g = Steady-quiet _ (λ w. refl)

pub Steady-note : (e : Entry) → ((log : List Entry) → allowed e log ≡ true) → Steady (note e)
unfolding note
Steady-note e a = record { keeps = λ F. Triple-modify _ (λ w h. add_entry F e w (a w.log) h) }

module _ {A B : Type 0} where
  pub Steady-bind :
      (m : Exec Work A) (f : A → Exec Work B)
      → Steady m
      → ((a : A) → Steady (f a))
      → Steady (m >>= f)
  Steady-bind m f h k = record {
    keeps = λ F. Triple-bind (λ _. Holds F) (h.keeps F) (λ a. (k a).keeps F);
  }

  -- A steady step before code that needs the facts.
  pub step :
      (F : List Fact) {Q : B → Work → Type 0} {m : Exec Work A} {f : A → Exec Work B}
      → Steady m
      → ((a : A) → Triple (Holds F) (f a) Q Safe)
      → Triple (Holds F) (m >>= f) Q Safe
  step F h k = Triple-bind (λ _. Holds F) (h.keeps F) k

-- An entry that makes a fact true.
pub note-gains :
    (F : List Fact) (e : Entry) (f : Fact)
    → ((w : Work) → Holds F w → allowed e w.log ≡ true)
    → ((w : Work) → Holds F w → f e w.log ≡ true)
    → Triple (Holds F) (note e) (λ _. Holds (f ∷ F)) Safe
unfolding note
note-gains F e f a g = Triple-modify _ (λ w h. (ground (arith, g w h), add_entry F e w (a w h) h))

-- An answer that is kept in the log, and needs no guard there.
pub Steady-observe :
    {A : Type 0} (f : ℕ → Result A) (entry : A → Entry)
    → ((a : A) (log : List Entry) → allowed (entry a) log ≡ true)
    → Steady (observe f entry)
unfolding observe
Steady-observe f entry free =
    Steady-bind _ _ (Steady-ask f)
      λ a. Steady-bind _ _ (Steady-note (entry a) (free a)) λ _. Steady-pure a

pub Steady-read_diff_of :
    (world : World) (workspace : GitWorkspace) → Steady (read_diff_of world workspace)
unfolding read_diff_of
Steady-read_diff_of world workspace = Steady-observe _ _ (λ a log. refl)

pub Steady-run_checked : (world : World) (plan : Plan) → Steady (run_checked world plan)
unfolding run_checked
Steady-run_checked world plan = Steady-observe _ _ (λ a log. refl)

pub ruleset steady_rules = (
  Steady-bind, Steady-if, Steady-pure, Steady-raise, Steady-lift, Steady-gets, Steady-ask,
  Steady-call_store, Steady-require, Steady-refuse, Steady-put, Steady-evidence, Steady-note,
  Steady-read_diff_of, Steady-run_checked,
)

-- The facts with one that holds if the test does.
abbrev pub gained : Bool → Fact → List Fact → List Fact
gained true f F = f ∷ F
gained false f F = F

pub gained-true :
    (b : Bool) (f : Fact) (F : List Fact) (w : Work)
    → b ≡ true
    → Holds (gained b f F) w
    → Holds (f ∷ F) w
gained-true true f F w e h = h
gained-true false f F w e h = cc

pub gained-drop :
    (b : Bool) (f : Fact) (F : List Fact) (w : Work) → Holds (gained b f F) w → Holds F w
gained-drop true f F w (here, h) = h
gained-drop false f F w h = h

pub gained-under :
    (b : Bool) (f : Fact) (F G : List Fact) (w : Work)
    → (Holds F w → Holds G w)
    → Holds (gained b f F) w
    → Holds (gained b f G) w
gained-under true f F G w k (here, h) = (here, k h)
gained-under false f F G w k h = k h

pub note-gained :
    (F : List Fact) (e : Entry) (b : Bool) (f : Fact)
    → ((w : Work) → Holds F w → allowed e w.log ≡ true)
    → ((w : Work) → Holds F w → b ≡ true → f e w.log ≡ true)
    → Triple (Holds F) (note e) (λ _. Holds (gained b f F)) Safe
note-gained F e true f a g = note-gains F e f a (λ w h. g w h refl)
note-gained F e false f a g = unfold note in Triple-modify _ (λ w h. add_entry F e w (a w h) h)

-- Some of the facts after the code are forgotten.
pub weaken-to :
    {A : Type 0} (F G : List Fact) {P : Work → Type 0} {m : Exec Work A}
    → ((w : Work) → Holds F w → Holds G w)
    → Triple P m (λ _. Holds F) Safe
    → Triple P m (λ _. Holds G) Safe
weaken-to F G h t = Triple-weaken (λ a w. h w) (λ e w s. s) t

-- The rest of the code is steady.
pub rest :
    {A : Type 0} (F : List Fact) {m : Exec Work A}
    → Steady m
    → Triple (Holds F) m (λ _. Holds F) Safe
rest F h = h.keeps F

-- A gained fact is true where its test is.
pub use-gained :
    {A : Type 0} (b : Bool) (f : Fact) (F : List Fact) {Q : A → Work → Type 0} {m : Exec Work A}
    → b ≡ true
    → Triple (Holds (f ∷ F)) m Q Safe
    → Triple (Holds (gained b f F)) m Q Safe
use-gained b f F e t = Triple-before (λ w h. gained-true b f F w e h) t

-- An entry that the facts allow.
pub note-keeps :
    (F : List Fact) (e : Entry)
    → ((w : Work) → Holds F w → allowed e w.log ≡ true)
    → Triple (Holds F) (note e) (λ _. Holds F) Safe
note-keeps F e a = note-gained F e false (λ e log. true) a (λ w h x. cc)

-- The guards hold after code whose exception is caught.
pub caught :
    {A : Type 0} (m : Exec Work A)
    → Triple (Holds []) m (λ _. Holds []) Safe
    → Triple (Holds []) (attempt m) (λ _. Holds []) Safe
caught m t = Triple-weaken (λ r w h. either r w h) (λ e w h. h) (Triple-attempt t)
  where
    either : {A : Type 0} (r : Result A) (w : Work) → Caught (λ _. Holds []) Safe r w → Holds [] w
    either (ok a) w h = h
    either (err e) w h = h
