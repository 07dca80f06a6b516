-- ===== src/Dcgm/Groups/Ends.antt =====
-- What lives in the engine after a query: the documented effects of the calls, and the rules that carry
-- them through a chain of calls.
use gpu_metric_collector.Base.{ℕ, ◌≡◌, ◌⊎◌, sym, subst, List, ◌∷◌}
use gpu_metric_collector.Dcgm.Returns.{Answered, answer, failed}
use gpu_metric_collector.Dcgm.Groups.{Query, Library, then_answer, after_error, ignore}

-- The groups and the field groups that live in an engine, newest first.
abbrev pub Live : Type 0
Live = List ℕ × List ℕ

-- What lives after an answer, and after a failure.
abbrev pub Ends :
    {E A : Type 0} → (E → Live) → (A → Live → Type 0) → (Live → Type 0) → E × Answered A → Type 0
Ends live good bad (e, answer a) = good a (live e)
Ends live good bad (e, failed code) = bad (live e)

-- What internal/include/dcgm_agent.h says of the calls: a create adds a group, or nothing where it
-- fails, a destroy removes a group that is there, and no other call adds or removes one.
pub record Documented (L : Library) : Type 1 where
  pub live : L.Engine → Live
  pub created :
      (gs fs : List ℕ) (e : L.Engine)
      → live e ≡ (gs, fs)
      → Ends live (λ h l. l ≡ (h ∷ gs, fs)) (λ l. l ≡ (gs, fs)) (L.group_create e)
  pub field_group_created :
      (fields gs fs : List ℕ) (e : L.Engine)
      → live e ≡ (gs, fs)
      → Ends live (λ h l. l ≡ (gs, h ∷ fs)) (λ l. l ≡ (gs, fs)) (L.field_group_create fields e)
  pub destroyed :
      (h : ℕ) (gs fs : List ℕ) (e : L.Engine)
      → live e ≡ (h ∷ gs, fs)
      → live (L.group_destroy h e).0 ≡ (gs, fs)
  pub field_group_destroyed :
      (h : ℕ) (gs fs : List ℕ) (e : L.Engine)
      → live e ≡ (gs, h ∷ fs)
      → live (L.field_group_destroy h e).0 ≡ (gs, fs)
  pub added : (h gpu : ℕ) (e : L.Engine) → live (L.group_add_device h gpu e).0 ≡ live e
  pub watched : (h f : ℕ) (e : L.Engine) → live (L.dcgm_watch_fields h f e).0 ≡ live e
  pub updated : (e : L.Engine) → live (L.dcgm_update_all_fields e).0 ≡ live e
  pub read :
      (gpu : ℕ) (fields : List ℕ) (e : L.Engine)
      → live (L.get_latest_values gpu fields e).0 ≡ live e
  pub health_watched : (h : ℕ) (e : L.Engine) → live (L.health_set h e).0 ≡ live e
  pub checked : (h : ℕ) (e : L.Engine) → live (L.dcgm_health_check h e).0 ≡ live e

-- What an answer satisfies, if there is one.
abbrev pub Answers : {A : Type 0} → (A → Type 0) → Answered A → Type 0
Answers P (answer a) = P a
Answers P (failed code) = Unit

abbrev pub Same : List ℕ → List ℕ → Live → Type 0
Same gs fs l = l ≡ (gs, fs)

abbrev pub Opened : List ℕ → List ℕ → ℕ → Live → Type 0
Opened gs fs h l = l ≡ (h ∷ gs, fs)

abbrev pub FieldsOpened : List ℕ → List ℕ → ℕ → Live → Type 0
FieldsOpened gs fs f l = l ≡ (gs, f ∷ fs)

-- What lives after a failure: what lived before, and perhaps one group more.
abbrev pub MayLeak : List ℕ → List ℕ → Live → Type 0
MayLeak gs fs l = (l ≡ (gs, fs)) ⊎ ((h : ℕ) × (l ≡ (h ∷ gs, fs)))

module _ {E : Type 0} (live : E → Live) where
  pub then_Ends :
      {A B : Type 0} (next : A → Query E B) (good : A → Live → Type 0) (bad : Live → Type 0)
      (good' : B → Live → Type 0) (bad' : Live → Type 0) (r : E × Answered A)
      → Ends live good bad r
      → ((l : Live) → bad l → bad' l)
      → ((e : E) (a : A) → good a (live e) → Ends live good' bad' (next a e))
      → Ends live good' bad' (then_answer next r)
  unfolding then_answer
  then_Ends next good bad good' bad' (e, answer a) h g f = f e a h
  then_Ends next good bad good' bad' (e, failed code) h g f = g (live e) h

  -- The same after a call that creates and destroys nothing.
  pub neutral_Ends :
      {A B : Type 0} (next : A → Query E B) (now : Live) (good' : B → Live → Type 0)
      (bad' : Live → Type 0) (r : E × Answered A)
      → live r.0 ≡ now
      → bad' now
      → ((e : E) (a : A) → live e ≡ now → Ends live good' bad' (next a e))
      → Ends live good' bad' (then_answer next r)
  unfolding then_answer
  neutral_Ends next now good' bad' (e, answer a) h g f = f e a h
  neutral_Ends next now good' bad' (e, failed code) h g f = subst bad' (sym h) g

  -- A chain of calls none of which creates or destroys anything.
  pub then_live :
      {A B : Type 0} (next : A → Query E B) (now : Live) (r : E × Answered A)
      → live r.0 ≡ now
      → ((e : E) (a : A) → live e ≡ now → live (next a e).0 ≡ now)
      → live (then_answer next r).0 ≡ now
  unfolding then_answer
  then_live next now (e, answer a) h f = f e a h
  then_live next now (e, failed code) h f = h

  -- The same after a call whose answer is ignored.
  pub ignore-Ends :
      {A B : Type 0} (next : Unit → Query E B) (good' : B → Live → Type 0) (bad' : Live → Type 0)
      (q : Query E A) (e : E)
      → Ends live good' bad' (next tt (q e).0)
      → Ends live good' bad' (then_answer next (ignore q e))
  unfolding then_answer
  ignore-Ends next good' bad' q e h = h

  pub cleanup_Ends :
      {A : Type 0} (cleanup : Query E Unit) (good : A → Live → Type 0) (bad bad' : Live → Type 0)
      (r : E × Answered A)
      → Ends live good bad r
      → ((e : E) → bad (live e) → bad' (live (cleanup e).0))
      → Ends live good bad' (after_error cleanup r)
  unfolding after_error
  cleanup_Ends cleanup good bad bad' (e, answer a) h f = h
  cleanup_Ends cleanup good bad bad' (e, failed code) h f = f e h

  pub read_Ends :
      {A : Type 0} (P : A → Type 0) (now : Live) (r : E × Answered A)
      → live r.0 ≡ now
      → Answers P r.1
      → Ends live (λ a l. P a × (l ≡ now)) (λ l. l ≡ now) r
  read_Ends P now (e, answer a) h p = (p, h)
  read_Ends P now (e, failed code) h p = h

  -- Of what is known of an answer, some may be forgotten.
  pub weaken_Ends :
      {A : Type 0} (good good' : A → Live → Type 0) (bad : Live → Type 0) (r : E × Answered A)
      → Ends live good bad r
      → ((a : A) (l : Live) → good a l → good' a l)
      → Ends live good' bad r
  weaken_Ends good good' bad (e, answer a) h f = f a (live e) h
  weaken_Ends good good' bad (e, failed code) h f = h
