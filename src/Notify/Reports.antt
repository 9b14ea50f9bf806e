-- ===== src/Notify/Reports.antt =====
-- What services/notification-worker/worker.py reports of each target of an alert.
use Prim.Native.String.{String}
use signalchord.Prelude.{
  ◌≡◌, refl, ap, ◌∙◌, subst, Option, none, some, List, [], ◌∷◌, ◌++◌, Result, ok, err, ◌⊎◌, inl,
  inr,
}
use mathlib.Core.List.{append-nil, append_assoc}
use signalchord.Kafka.World.{Exn, Broker, World, Action, ◌>>=◌, after}
use signalchord.Kafka.Envelope.{prefix}
use signalchord.Graph.Json.{Json, text, object, Fields, nil}
use signalchord.Events.Values.{Runtime, item, get_item}
use signalchord.Events.Publish.{lift}
use signalchord.Notify.Deliver.{
  Call, post, patch, Http, expo_push_url, expo_message, check_platform, provider_id,
}
use signalchord.Notify.Process.{
  answered, call, response, update_delivery, push, failed, attempt_push, deliver_target,
  deliver_targets,
}

-- the deliveries that the calls report on, each with its status, in order
abbrev pub reports : {A : Type 0} → List (Call A) → List (Json A × String)
reports [] = []
reports (post url body ∷ calls) = reports calls
reports (patch id status fields ∷ calls) = (id, status) ∷ reports calls

reports-append :
    {A : Type 0} (xs ys : List (Call A)) → reports (xs ++ ys) ≡ reports xs ++ reports ys
reports-append [] ys = refl
reports-append (post url body ∷ xs) ys = reports-append xs ys
reports-append (patch id status fields ∷ xs) ys = ap (λ z. (id, status) ∷ z) (reports-append xs ys)

module _ {A V : Type 0} (rt : Runtime A V) (http : Http A) (broker : Broker V) where
  abbrev State : Type 0
  State = World V (List (Call A))

  -- an action that reports nothing
  abbrev IsSilent : {B : Type 0} → Action V (List (Call A)) B → Type 0
  IsSilent m = (w : State) → reports (m w).1.cell ≡ reports w.cell

  after-IsSilent :
      {B D : Type 0} (r : Result Exn B × State) (f : B → Action V (List (Call A)) D)
      → ((b : B) → IsSilent (f b))
      → reports (after r f).1.cell ≡ reports r.1.cell
  after-IsSilent (ok b, w) f h = h b w
  after-IsSilent (err e, w) f h = refl

  lift_bind-IsSilent :
      {B D : Type 0} (r : Result Exn B) (f : B → Action V (List (Call A)) D)
      → ((b : B) → IsSilent (f b))
      → IsSilent (lift r >>= f)
  lift_bind-IsSilent (ok b) f h w = h b w
  lift_bind-IsSilent (err e) f h w = refl

  lift-IsSilent : {B : Type 0} (r : Result Exn B) → IsSilent (lift {V = V} {C = List (Call A)} r)
  lift-IsSilent (ok b) w = refl
  lift-IsSilent (err e) w = refl

  response_bind-IsSilent :
      {D : Type 0} (f : Json A → Action V (List (Call A)) D)
      → ((b : Json A) → IsSilent (f b))
      → IsSilent (response rt http broker >>= f)
  response_bind-IsSilent f h w =
      after-IsSilent (response rt http broker w) f h ∙ lift-IsSilent (http.json w.cell) w

  -- a call leaves itself behind, whatever is answered
  answered-cell : (o : Option Exn) (w : State) → (answered rt http broker o w).1 ≡ w
  answered-cell none w = refl
  answered-cell (some e) w = refl

  call-reports :
      (c : Call A) (w : State)
      → reports (call rt http broker c w).1.cell ≡ reports w.cell ++ reports (c ∷ [])
  call-reports c w =
      ap (λ (v : State). reports v.cell)
        (answered-cell (http.raised (w.cell ++ c ∷ [])) (record w { cell = w.cell ++ c ∷ [] }))
      ∙ reports-append w.cell (c ∷ [])

  post_bind-IsSilent :
      {D : Type 0} (url : String) (body : Fields A) (f : Unit {0} → Action V (List (Call A)) D)
      → ((b : Unit {0}) → IsSilent (f b))
      → IsSilent (call rt http broker (post url body) >>= f)
  post_bind-IsSilent url body f h w =
      after-IsSilent (call rt http broker (post url body) w) f h
      ∙ call-reports (post url body) w
      ∙ append-nil (reports w.cell)

  push-IsSilent : (payload target : Json A) → IsSilent (push rt http broker payload target)
  unfolding push
  push-IsSilent payload target =
      lift_bind-IsSilent {D = Json A} (item "platform" target) _ (λ platform.
        lift_bind-IsSilent {D = Json A} (check_platform rt http platform) _ (λ _.
          lift_bind-IsSilent {D = Json A} (item "token" target) _ (λ token.
            lift_bind-IsSilent {D = Json A} (expo_message rt http payload token) _ (λ message.
              post_bind-IsSilent {D = Json A} expo_push_url message _ (λ _.
                response_bind-IsSilent {D = Json A} _ (λ body.
                  lift_bind-IsSilent {D = Json A} (get_item "data" (object nil) body) _
                    (λ data_of. lift-IsSilent (provider_id rt http data_of))))))))

  -- What is reported of a target: it was delivered; or the handling raised, and the last report, if
  -- there is one, is that it failed, after at most the report that it was delivered.
  abbrev pub IsTried : Json A → List (Json A × String) → List (Json A × String) → Type 0
  IsTried id start end =
      (end ≡ start ++ (id, "failed") ∷ [])
      ⊎ (end ≡ start ++ (id, "delivered") ∷ (id, "failed") ∷ [])

  abbrev pub IsReported :
      Json A → List (Json A × String) → Result Exn (Unit {0}) → List (Json A × String) → Type 0
  IsReported id start r end =
      ((r ≡ ok tt) × (end ≡ start ++ (id, "delivered") ∷ []))
      ⊎ ((e : Exn) × (r ≡ err e) × IsTried id start end)

  raise_after :
      (o : Option Exn) (w : State) (e : Exn)
      → let r = after {B = Unit {0}} (answered rt http broker o w) (λ _ v. (err e, v)) in
        (x : Exn) × (r.0 ≡ err x) × (r.1 ≡ w)
  raise_after none w e = (e, refl, refl)
  raise_after (some x) w e = (x, refl, refl)

  failed-reports :
      (id : Json A) (e : Exn) (w : State)
      → let r = failed rt http broker id (err e, w) in
        (x : Exn) × (r.0 ≡ err x) × (reports r.1.cell ≡ reports w.cell ++ (id, "failed") ∷ [])
  failed-reports id e w =
      let c = patch id "failed" (("last_error", text (prefix 2000 e.text)) ∷ []) in
      let v : State = record w { cell = w.cell ++ c ∷ [] } in
      let (x, r, s) = raise_after (http.raised (w.cell ++ c ∷ [])) v e in
      (x, r, ap (λ (v : State). reports v.cell) s ∙ reports-append w.cell (c ∷ []))

  updated-IsReported :
      (id : Json A) (start : List (Json A × String)) (o : Option Exn) (w : State)
      → reports w.cell ≡ start ++ (id, "delivered") ∷ []
      → let r = failed rt http broker id (answered rt http broker o w) in
        IsReported id start r.0 (reports r.1.cell)
  updated-IsReported id start none w h = inl (refl, h)
  updated-IsReported id start (some e) w h =
      let (x, r, s) = failed-reports id e w in
      inr (
        x,
        r,
        inr (
            s
            ∙ ap (λ z. z ++ (id, "failed") ∷ []) h
            ∙ append_assoc start ((id, "delivered") ∷ []) ((id, "failed") ∷ [])),
      )

  pushed-IsReported :
      (id : Json A) (start : List (Json A × String)) (p : Result Exn (Json A) × State)
      → reports p.1.cell ≡ start
      → let r = failed rt http broker id (
          after p (λ m.
            update_delivery rt http broker id "delivered" (("provider_message_id", m) ∷ []))) in
        IsReported id start r.0 (reports r.1.cell)
  pushed-IsReported id start (ok m, w) h =
      let c = patch id "delivered" (("provider_message_id", m) ∷ []) in
      updated-IsReported id start (http.raised (w.cell ++ c ∷ []))
        (record w { cell = w.cell ++ c ∷ [] })
        (reports-append w.cell (c ∷ []) ∙ ap (λ z. z ++ (id, "delivered") ∷ []) h)
  pushed-IsReported id start (err e, w) h =
      let (x, r, s) = failed-reports id e w in
      inr (x, r, inl (s ∙ ap (λ z. z ++ (id, "failed") ∷ []) h))

  deliver_target-IsReported :
      (payload target id : Json A) (w : State)
      → let r = deliver_target rt http broker payload target id w in
        IsReported id (reports w.cell) r.0 (reports r.1.cell)
  unfolding deliver_target attempt_push
  deliver_target-IsReported payload target id w =
      pushed-IsReported id (reports w.cell) (push rt http broker payload target w)
        (push-IsSilent payload target w)

  -- The specification of the loop over the targets: each is reported delivered before anything is
  -- reported of the next; one that raises is reported failed, unless it has no identifier, and is the
  -- last one of which anything is reported.
  abbrev pub IsHandled :
      List (Json A × String)
      → List (Json A)
      → Result Exn (Unit {0})
      → List (Json A × String)
      → Type 0
  IsHandled start [] r end = (r ≡ ok tt) × (end ≡ start)
  IsHandled start (t ∷ targets) r end =
      ((id : Json A) × (item "delivery_id" t ≡ ok id)
        × IsHandled (start ++ (id, "delivered") ∷ []) targets r end)
      ⊎ ((e : Exn) × (r ≡ err e)
          × (((item "delivery_id" t ≡ err e) × (end ≡ start))
              ⊎ ((id : Json A) × (item "delivery_id" t ≡ ok id) × IsTried id start end)))

  rest-IsHandled :
      (start : List (Json A × String)) (t id : Json A) (targets : List (Json A))
      (r : Result Exn (Unit {0}) × State) (f : Action V (List (Call A)) (Unit {0}))
      → item "delivery_id" t ≡ ok id
      → IsReported id start r.0 (reports r.1.cell)
      → ((w : State) → IsHandled (reports w.cell) targets (f w).0 (reports (f w).1.cell))
      → let s = after r (λ _. f) in IsHandled start (t ∷ targets) s.0 (reports s.1.cell)
  rest-IsHandled start t id targets (ok u, w) f e (inl (_, h)) g =
      inl (id, e, subst (λ z. IsHandled z targets (f w).0 (reports (f w).1.cell)) h (g w))
  rest-IsHandled start t id targets (err x, w) f e (inl (h, _)) g = cc
  rest-IsHandled start t id targets (ok u, w) f e (inr (x, h, _)) g = cc
  rest-IsHandled start t id targets (err y, w) f e (inr (x, h, k)) g = inr (y, refl, inr (id, e, k))

  id-IsHandled :
      (payload t : Json A) (targets : List (Json A)) (o : Result Exn (Json A)) (w : State)
      → item "delivery_id" t ≡ o
      → ((w : State)
          → let r = deliver_targets rt http broker payload targets w in
            IsHandled (reports w.cell) targets r.0 (reports r.1.cell))
      → let s = after (lift o w) (λ id.
        deliver_target rt http broker payload t id
        >>= (λ _. deliver_targets rt http broker payload targets)) in
        IsHandled (reports w.cell) (t ∷ targets) s.0 (reports s.1.cell)
  id-IsHandled payload t targets (ok id) w e g =
      rest-IsHandled (reports w.cell) t id targets (deliver_target rt http broker payload t id w)
        (deliver_targets rt http broker payload targets) e
        (deliver_target-IsReported payload t id w) g
  id-IsHandled payload t targets (err x) w e g = inr (x, refl, inl (e, refl))

  -- The loop over the targets meets its specification, whatever the control plane and the provider
  -- answer: it returns only if every target was reported delivered, in order; if it raises, the
  -- targets before the one that raised were reported delivered, that one was reported failed, unless
  -- what raised is that it has no identifier, and nothing was reported of those after it. A report
  -- here is the call for it, also where the control plane then answers with an error.
  pub deliver_targets-IsHandled :
      (payload : Json A) (targets : List (Json A)) (w : State)
      → let r = deliver_targets rt http broker payload targets w in
        IsHandled (reports w.cell) targets r.0 (reports r.1.cell)
  unfolding deliver_targets
  deliver_targets-IsHandled payload [] w = (refl, refl)
  deliver_targets-IsHandled payload (t ∷ targets) w =
      id-IsHandled payload t targets (item "delivery_id" t) w refl
        (deliver_targets-IsHandled payload targets)
