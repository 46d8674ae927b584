-- ===== src/Applications/Standalone/Answers/Requests.antt =====
-- The handlers of _examples/standalone/main.go, and the account.
use go_sessions.Base.{
  ℕ, GoString, str_eq, str_eq_refl, ◌≡◌, refl, ◌∙◌, Bool, false, not, some, List, [], length,
  get_elem?-append_last, Bool-cases, inl, inr,
}
use go_sessions.Base.Outcome.{Exec, continue}
use go_sessions.Value.{string, slice, items, alloc}
use go_sessions.Database.{Database}
use go_sessions.World.{World, lookup}
use go_sessions.Session.{set, set_immutable, delete_value, clear, get}
use go_sessions.Session.Values.{get_string}
use go_sessions.Cookie.{Cookie, Request, get_cookie}
use go_sessions.Config.{Config, Generator}
use go_sessions.Sessions
use go_sessions.Sessions.{start, shift_expiration}
use go_sessions.Clients.{Returns, Returns-continue}
use go_sessions.Clients.Start.{Identifies, client, start-Returns}
use go_sessions.Clients.Ends.{update_request-Returns, destroy_request-Returns}
use go_sessions.Applications.{Response, visible}
use go_sessions.Applications.Standalone.{
  name, business_edit, iris, business, Page, root_page, set_page, get_page, delete_page, clear_page,
  update_page, destroy_page, set_immutable_page, get_immutable_page, show_first, set_name, get_name,
  delete_name, clear_values, update, destroy, set_business, get_business, serve,
}
use go_sessions.Applications.Standalone.Account.{Account, opened, after, reply}
use go_sessions.Applications.Standalone.Answers.{
  alloc-Keeps, Agrees, started-Agrees, read-Agrees, left-Agrees,
}
use go_sessions.Applications.Standalone.Answers.Values.{
  set-Agrees, set_immutable-Agrees, delete-Agrees, clear-Agrees, get_string-Agrees,
  get_models-Agrees, get_nothing-Agrees,
}
use go_sessions.Applications.Standalone.Answers.Copies.{
  heap-Agrees, renamed-Agrees, rename_lem, first_lem,
}

module _ {D : Type 0} (ops : Database D) (c : Config) (g : Generator) (known : GoString → GoString)
    (i : Identifies c g known) (unlimited draw : ℕ) (r : Request) where
  abbrev fresh : Bool
  fresh = str_eq (known (get_cookie r c.cookie)) []

  abbrev sid : GoString
  sid = client g draw (known (get_cookie r c.cookie))

  -- What a handler answers and leaves.
  abbrev Answers : Page → Account → Response → World D → Type 0
  Answers page a answer w =
      (visible answer ≡ reply page fresh sid a) × Agrees w (after page fresh sid a)

  -- A handler that starts the session and goes on.
  starting :
      {B : Type 0} (Q : B → World D → Type 0) (f : ℕ × List Cookie → Exec (World D) B) (w : World D)
      (a : Account)
      → Agrees w a
      → ((x : ℕ × List Cookie) (u : World D)
          → Agrees u (opened fresh sid a)
          → lookup u.table sid ≡ some x.0
          → u.heap ≡ w.heap
          → Returns Q (f x u))
      → Returns Q (continue (start ops c unlimited draw r w) f)
  starting Q f w a k next =
      Returns-continue _ Q (start ops c unlimited draw r w) f
        (start-Returns ops c g known i w unlimited draw r k.serving)
        (λ x u y. next x u (started-Agrees w sid fresh x.0 u a k y) y.in_table y.heap)

  set-Answers :
      (w : World D) (a : Account)
      → Agrees w a
      → Returns (Answers set_page a) (set_name ops c unlimited draw r w)
  unfolding set_name
  set-Answers w a k = starting _ _ w a k (λ x u y here h.
      Returns-continue _ _ (set ops x.0 name (string iris) u) _ (set-Agrees ops u sid x.0 _ y here)
        (λ z t q.
          Returns-continue _ _ (get_string x.0 name t) _ (get_string-Agrees t sid x.0 _ q.0 q.1)
            (λ v s m. (rw (m.0) (rw (str_eq_refl sid)), m.1))))

  get-Answers :
      (w : World D) (a : Account)
      → Agrees w a
      → Returns (Answers get_page a) (get_name ops c unlimited draw r w)
  unfolding get_name
  get-Answers w a k = starting _ _ w a k (λ x u y here h.
      Returns-continue _ _ (get_string x.0 name u) _ (get_string-Agrees u sid x.0 _ y here)
        (λ v s m. (rw (m.0), m.1)))

  delete-Answers :
      (w : World D) (a : Account)
      → Agrees w a
      → Returns (Answers delete_page a) (delete_name ops c unlimited draw r w)
  unfolding delete_name
  delete-Answers w a k = starting _ _ w a k (λ x u y here h.
      Returns-continue _ _ (delete_value ops x.0 name u) _ (delete-Agrees ops u sid x.0 _ y here)
        (λ z t q. (refl, q.0)))

  clear-Answers :
      (w : World D) (a : Account)
      → Agrees w a
      → Returns (Answers clear_page a) (clear_values ops c unlimited draw r w)
  unfolding clear_values
  clear-Answers w a k = starting _ _ w a k (λ x u y here h.
      Returns-continue _ _ (clear ops x.0 u) _ (clear-Agrees ops u sid x.0 _ y here)
        (λ z t q. (refl, q.0)))

  update-Answers :
      (w : World D) (a : Account)
      → Agrees w a
      → Returns (Answers update_page a) (update c unlimited r w)
  unfolding update shift_expiration
  update-Answers w a k =
      Returns-continue _ _ (shift_expiration c unlimited r w) _
        (update_request-Returns c g known i w unlimited r c.expires k.serving)
        (λ cookies u x. (refl, left-Agrees w sid false u a k x))

  destroy-Answers :
      (w : World D) (a : Account)
      → Agrees w a
      → Returns (Answers destroy_page a) (destroy c ops r w)
  unfolding destroy
  destroy-Answers w a k =
      Returns-continue _ _ (Sessions.destroy ops c r w) _
        (destroy_request-Returns c g known i ops w r k.serving)
        (λ cookies u x. (
          refl,
          left-Agrees w sid (not fresh) u a k (record {
            serving = x.serving;
            contents =
                λ j key. x.contents j key ∙ elim (Bool-cases fresh) [ inl e ↦ rw e | inr e ↦ rw e ];
            heap = x.heap;
          }),
        ))

  set_business-Answers :
      (w : World D) (a : Account)
      → Agrees w a
      → Returns (Answers set_immutable_page a) (set_business ops c unlimited draw r w)
  unfolding set_business
  set_business-Answers w a k =
      let w1 : World D = record w { heap = alloc w.heap (items business) } in
      starting _ _ w1 a (heap-Agrees w _ a k (alloc-Keeps w.heap (items business))) (λ x u y here h.
        Returns-continue _ _ (set_immutable ops x.0 business_edit (slice (length w.heap)) u) _
          (set_immutable-Agrees ops u sid x.0 _ y here (length w.heap)
            (rw h (get_elem?-append_last w.heap (items business))))
          (λ z t q.
            Returns-continue _ _ (get x.0 business_edit t) _
              (get_models-Agrees t sid x.0 _ q.0 q.1 (rw (str_eq_refl sid)))
              (λ v s m. rw (m.0) (
                rw (rename_lem s t.heap m.1.heap)
                  (refl, renamed-Agrees t sid x.0 _ _ _ s q.0 m.1)))))

  get_business-Answers :
      (w : World D) (a : Account)
      → Agrees w a
      → Returns (Answers get_immutable_page a) (get_business ops c unlimited draw r w)
  unfolding get_business show_first
  get_business-Answers w a k = starting _ _ w a k (λ x u y here h.
      elim (Bool-cases (opened fresh sid a sid).modelled) [
        | inl e ↦
            Returns-continue _ _ (get x.0 business_edit u) _
              (get_models-Agrees u sid x.0 _ y here e)
              (λ v s m. rw (m.0) (
                rw (first_lem s u.heap m.1.heap)
                  (rw e, read-Agrees u sid x.0 _ s _ y (alloc-Keeps u.heap (items business)) m.1)))
        | inr e ↦
            Returns-continue _ _ (get x.0 business_edit u) _
              (get_nothing-Agrees u sid x.0 _ y here e) (λ v s m. rw (m.0) (rw e, m.1))
      ])

  pub serve-Answers :
      (page : Page) (w : World D) (a : Account)
      → Agrees w a
      → Returns (Answers page a) (serve ops c unlimited page draw r w)
  unfolding serve
  serve-Answers root_page w a k = (refl, k)
  serve-Answers set_page w a k = set-Answers w a k
  serve-Answers get_page w a k = get-Answers w a k
  serve-Answers delete_page w a k = delete-Answers w a k
  serve-Answers clear_page w a k = clear-Answers w a k
  serve-Answers update_page w a k = update-Answers w a k
  serve-Answers destroy_page w a k = destroy-Answers w a k
  serve-Answers set_immutable_page w a k = set_business-Answers w a k
  serve-Answers get_immutable_page w a k = get_business-Answers w a k
