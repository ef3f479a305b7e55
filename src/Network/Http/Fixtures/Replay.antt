-- ===== src/Network/Http/Fixtures/Replay.antt =====
-- Inserting a response and replaying it.
use cartridge_runtime.Prelude.{
  ◌≤◌, ◌≡◌, refl, sym, ap, subst, ◌∙◌, inl, inr, Bool, true, false, not, Option, none, some, arith,
  leb, length, is_some, Bool-cases, if◌then◌else◌,
}
use cartridge_runtime.Prelude.Text.{Text, text_eq, text_eq_iff, text_ord}
use cartridge_runtime.Prelude.Map
use cartridge_runtime.Prelude.Map.{get-insert, IsSorted, same_key}
use cartridge_runtime.Prelude.Map.Size.{length-insert, count_of}
use cartridge_runtime.Prelude.Results.{
  ok, err, ok_or, ◌>>=◌, >>=-eq-ok, >>-eq-ok, reject-ok, ok_injective, Result-cases,
}
use cartridge_runtime.Network.Limits.{Error, Result, no_fixture, max_fixtures}
use cartridge_runtime.Network.Http.Policy.{
  HttpPolicy, HttpRequest, HttpResponse, Url, Web, authorize, validate_response, fingerprint,
}
use cartridge_runtime.Network.Http.Fixtures.{
  HttpFixtures, bad_document, send, check_room, insert, replay,
}

-- What `insert` has found when it succeeds.
record IsInserted (w : Web) (f g : HttpFixtures) (p : HttpPolicy) (r : HttpRequest)
    (response : HttpResponse) : Type 0 where
  url : Url
  authorized : authorize w p r ≡ ok url
  fine : validate_response p response ≡ ok tt
  room : check_room w f r ≡ ok tt
  print : Text
  printed : fingerprint w r ≡ ok print
  made : record f { responses = Map.insert print response f.responses } ≡ g

insert-IsInserted :
    (w : Web) (f g : HttpFixtures) (p : HttpPolicy) (r : HttpRequest) (response : HttpResponse)
    → insert w f p r response ≡ ok g
    → IsInserted w f g p r response
unfolding insert
insert-IsInserted w f g p r response h =
    let (url, authorized, h1) = >>=-eq-ok (authorize w p r) _ h in
    let (fine, h2) = >>-eq-ok (validate_response p response) _ h1 in
    let (room, h3) = >>-eq-ok (check_room w f r) _ h2 in
    let (print, printed, h4) = >>=-eq-ok (fingerprint w r) _ h3 in
    record {
      url = url;
      authorized = authorized;
      fine = fine;
      room = room;
      print = print;
      printed = printed;
      made = ok_injective _ g _ refl h4;
    }

room-count :
    (w : Web) (f : HttpFixtures) (r : HttpRequest) (print : Text)
    → fingerprint w r ≡ ok print
    → check_room w f r ≡ ok tt
    → max_fixtures ≤ length f.responses
    → count_of (Map.get print f.responses) ≡ 1
unfolding check_room
room-count w f r print e h full =
    let (other, e1, h1) =
      >>=-eq-ok (fingerprint w r) _
        (when_true (leb max_fixtures (length f.responses)) _ _ (ground (arith, full)) h) in
    let same = ok_injective other print (fingerprint w r) e1 e in
    found (Map.get print f.responses)
      (subst (λ t. not (is_some (Map.get t f.responses)) ≡ false) same (reject-ok _ _ h1))
  where
    when_true :
        (b : Bool) (x y : Result (Unit {0})) → b ≡ true → (if b then x else y) ≡ ok tt → x ≡ ok tt
    when_true true x y b h = h
    when_true false x y b h = cc

    found : (o : Option HttpResponse) → not (is_some o) ≡ false → count_of o ≡ 1
    found none h = cc
    found (some v) h = refl

same_key-text_eq : (s t : Text) → same_key s t ≡ text_eq s t
unfolding text_eq
same_key-text_eq s t = refl

get-inserted :
    (f : HttpFixtures) (a b : Text) (response : HttpResponse)
    → Map.get a (Map.insert b response f.responses)
      ≡ (if text_eq a b then some response else Map.get a f.responses)
get-inserted f a b response =
    get-insert b a response f.responses
    ∙ ap (λ t. if t then some response else Map.get a f.responses) (same_key-text_eq a b)

insert-room :
    (w : Web) (f g : HttpFixtures) (p : HttpPolicy) (r : HttpRequest) (response : HttpResponse)
    → IsSorted f.responses
    → bad_document f ≡ false
    → IsInserted w f g p r response
    → bad_document g ≡ false
insert-room w f g p r response sorted good i =
    subst (λ x. bad_document x ≡ false) i.made
      (ground (
        arith,
        good,
        length-insert i.print response f.responses sorted,
        room-count w f r i.print i.printed i.room,
      ))

send_fine :
    (w : Web) (f : HttpFixtures) (q : HttpRequest) (print : Text)
    → bad_document f ≡ false
    → fingerprint w q ≡ ok print
    → send w f q ≡ ok_or (Map.get print f.responses) no_fixture
unfolding send
send_fine w f q print good e = rw (good, e) refl

send_refused :
    (w : Web) (f : HttpFixtures) (q : HttpRequest) (fault : Error)
    → bad_document f ≡ false
    → fingerprint w q ≡ err fault
    → send w f q ≡ err fault
unfolding send
send_refused w f q fault good e = rw (good, e) refl

get-IsInserted :
    (w : Web) (f g : HttpFixtures) (p : HttpPolicy) (r : HttpRequest) (response : HttpResponse)
    (i : IsInserted w f g p r response) (a : Text)
    → Map.get a g.responses ≡ (if text_eq a i.print then some response else Map.get a f.responses)
get-IsInserted w f g p r response i a =
    ap (λ x. Map.get a x.responses) (sym i.made) ∙ get-inserted f a i.print response

replayed :
    (w : Web) (f g : HttpFixtures) (p : HttpPolicy) (r : HttpRequest) (response : HttpResponse)
    → bad_document g ≡ false
    → IsInserted w f g p r response
    → replay w g p r ≡ ok response
unfolding replay
replayed w f g p r response good i = rw (good, i.authorized, i.printed, here, i.fine) refl
  where
    here : Map.get i.print g.responses ≡ some response
    here =
        get-IsInserted w f g p r response i i.print ∙ rw ((text_eq_iff i.print i.print).1 refl) refl

sent :
    (w : Web) (f g : HttpFixtures) (p : HttpPolicy) (r q : HttpRequest) (response : HttpResponse)
    → bad_document f ≡ false
    → bad_document g ≡ false
    → IsInserted w f g p r response
    → send w g q ≡ (do
      mine ← fingerprint w q
      recorded ← fingerprint w r
      if text_eq mine recorded then ok response else send w f q)
sent w f g p r q response good room i = elim (Result-cases (fingerprint w q)) [
  | inl (fault, e) ↦ rw (send_refused w g q fault room e, e) refl
  | inr (mine, e) ↦ elim (Bool-cases (text_eq mine i.print)) [
    | inl b ↦
        rw (send_fine w g q mine room e, get-IsInserted w f g p r response i mine, e, i.printed, b)
          refl
    | inr b ↦
        rw
          (
            send_fine w g q mine room e,
            get-IsInserted w f g p r response i mine,
            e,
            i.printed,
            b,
            send_fine w f q mine good e,
          )
          refl
  ]
]

-- In a document within its limits, with its entries in order, a response that is inserted for a
-- request is what the document replays and sends for it; another
-- request gets what it got before, unless its fingerprint is the same; and the document stays within
-- its limits.
pub replay-insert :
    (w : Web) (f g : HttpFixtures) (p : HttpPolicy) (r q : HttpRequest) (response : HttpResponse)
    → IsSorted f.responses
    → bad_document f ≡ false
    → insert w f p r response ≡ ok g
    → (bad_document g ≡ false)
      × (replay w g p r ≡ ok response)
      × (send w g q ≡ (do
        mine ← fingerprint w q
        recorded ← fingerprint w r
        if text_eq mine recorded then ok response else send w f q))
replay-insert w f g p r q response sorted good h =
    let i = insert-IsInserted w f g p r response h in
    let room = insert-room w f g p r response sorted good i in
    (room, replayed w f g p r response room i, sent w f g p r q response good room i)
