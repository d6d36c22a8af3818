-- ===== src/Travel/Geoapify/Laws.antt =====
-- `BuildRoute` of internal/travelroutes/geoapify_client.go: the one request and its timeout.
use route_planner.Prelude.{
  ◌≡◌, refl, ap, ◌∙◌, String, true, false, Option, none, some, List, [], ◌∷◌, arith, ◌==◌, ==_iff,
  Bool-cases, inl, inr,
}
use route_planner.Prelude.Int.{ℤ, pos, negsuc, is_negative, ltb_int}
use route_planner.Errors.{GoError, sentinel, deadline_exceeded}
use route_planner.Effects.{Outcome, ok, err}
use route_planner.Effects.Laws.{>>=-eq-ok}
use route_planner.Models.{Location}
use route_planner.Travel.Geoapify.{
  HttpReply, GeoapifyCalls, GeoapifyClient, route_url, read_errors, read_reply, request, limited,
  build_route,
}

ltb_int_irrefl : (a : ℤ) → ltb_int a a ≡ false
ltb_int_irrefl (pos a) = ground arith
ltb_int_irrefl (negsuc a) = ground arith

ltb_int_asym : (a b : ℤ) → ltb_int a b ≡ true → ltb_int b a ≡ false
ltb_int_asym (pos a) (pos b) h = ground arith
ltb_int_asym (pos a) (negsuc b) h = cc
ltb_int_asym (negsuc a) (pos b) h = refl
ltb_int_asym (negsuc a) (negsuc b) h = ground arith

-- The timeout is not past the deadline, if there is one, and the deadline has not passed.
abbrev pub IsWithin : Option ℤ → ℤ → Type 0
IsWithin none timeout = Unit
IsWithin (some remaining) timeout =
    (is_negative remaining ≡ false) × (ltb_int remaining timeout ≡ false)

module _ {W : Type 0} (calls : GeoapifyCalls W) (c : GeoapifyClient) where
  -- The request behind a route that was returned.
  pub record IsRequest (origin destination : Location) (text : String) (w w' : W) : Type 0 where
    pub deadline : Option ℤ
    pub timeout : ℤ
    pub before : W
    pub reply : HttpReply
    pub asked : calls.until_deadline w ≡ (ok deadline, before)
    pub in_time : IsWithin deadline timeout
    pub in_limit : ltb_int c.timeout timeout ≡ false
    pub sent :
        calls.get (route_url calls c origin destination) timeout (calls.count_request before)
        ≡ (ok reply, w')
    pub no_errors : reply.errors ≡ []
    pub status_ok : reply.status ≡ 200
    pub body : text ≡ reply.body

  read_reply_ok :
      (reply : HttpReply) (errors : List GoError) (text : String) (w w' : W)
      → read_errors calls c reply errors w ≡ (ok text, w')
      → (errors ≡ []) × (reply.status ≡ 200) × (text ≡ reply.body) × (w ≡ w')
  read_reply_ok reply [] text w w' h = elim (Bool-cases (reply.status == 200)) [
    | inl good ↦
        let same : ◌≡◌ {A = Outcome String × W} (ok reply.body, w) (ok text, w') = rw good at h in
        (refl, (==_iff reply.status 200).0 good, cc, cc)
    | inr bad ↦ let failed : ◌≡◌ {A = Outcome String × W} _ (ok text, w') = rw bad at h in cc
  ]
  read_reply_ok reply (e ∷ es) text w w' h = cc

  module _ (origin destination : Location) (text : String) (w w' : W) where
    request_sent :
        (deadline : Option ℤ) (timeout : ℤ) (before : W)
        → calls.until_deadline w ≡ (ok deadline, before)
        → IsWithin deadline timeout
        → ltb_int c.timeout timeout ≡ false
        → request calls c (route_url calls c origin destination) timeout before ≡ (ok text, w')
        → IsRequest origin destination text w w'
    request_sent deadline timeout before asked in_time in_limit h =
        let url = route_url calls c origin destination in
        let (reply, after, sent, last) =
          >>=-eq-ok (calls.get url timeout) (read_reply calls c) (calls.count_request before) text
            w' h in
        let (no_errors, status_ok, body, same) =
          read_reply_ok reply reply.errors text after w' last in
        record {
          deadline = deadline;
          timeout = timeout;
          before = before;
          reply = reply;
          asked = asked;
          in_time = in_time;
          in_limit = in_limit;
          sent = sent ∙ ap (λ v. (ok reply, v)) same;
          no_errors = no_errors;
          status_ok = status_ok;
          body = body;
        }

    limited_sent :
        (deadline : Option ℤ) (before : W)
        → calls.until_deadline w ≡ (ok deadline, before)
        → limited calls c (route_url calls c origin destination) deadline before ≡ (ok text, w')
        → IsRequest origin destination text w w'
    limited_sent none before asked h =
        request_sent none c.timeout before asked tt (ltb_int_irrefl c.timeout) h
    limited_sent (some remaining) before asked h = elim (Bool-cases (is_negative remaining)) [
      | inl passed ↦
          let refused : ◌≡◌ {A = Outcome String × W} (err (sentinel deadline_exceeded), before)
              (ok text, w') =
            rw passed at h in
          cc
      | inr still ↦ (elim (Bool-cases (ltb_int remaining c.timeout)) [
        | inl less ↦
            request_sent (some remaining) remaining before asked (still, ltb_int_irrefl remaining)
              (ltb_int_asym remaining c.timeout less) (rw (still, less) at h)
        | inr enough ↦
            request_sent (some remaining) c.timeout before asked (still, enough)
              (ltb_int_irrefl c.timeout) (rw (still, enough) at h)
      ])
    ]

  -- A route that is returned is the body of one reply with status 200 and no error, to one counted
  -- request for the two locations, whose timeout was at most the client's and did not run past the
  -- deadline.
  pub build_route-IsRequest :
      (origin destination : Location) (text : String) (w w' : W)
      → build_route calls c origin destination w ≡ (ok text, w')
      → IsRequest origin destination text w w'
  unfolding build_route
  build_route-IsRequest origin destination text w w' h =
      let (deadline, before, asked, last) =
        >>=-eq-ok calls.until_deadline (limited calls c (route_url calls c origin destination)) w
          text w' h in
      limited_sent origin destination text w w' deadline before asked last
