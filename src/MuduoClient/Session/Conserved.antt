-- ===== src/MuduoClient/Session/Conserved.antt =====
-- MuduoClient/Session: no byte of the greeting is lost, doubled or out of order on its way to the server
-- and back.
use mynuduo.Base.{
  Returns, Returns-mono, Returns-bind, Returns-also, IfReturns, ℕ, suc, ◌+◌, ◌≤◌, ◌≡◌, refl, sym,
  ap, ap₂, ◌∙◌, false, Option, List, [], ◌∷◌, ◌++◌, length, take, drop, append_assoc, append-nil,
  max_size, take-append-drop, ◌>>=◌,
}
use mynuduo.Buffer.{contents, WriteResult, extra_size, read_limit}
use mynuduo.Poller.{Epoll}
use mynuduo.TcpConnection.{Connection, is_connected, is_disconnected}
use mynuduo.TcpConnection.Inv.{Inv}
use mynuduo.TcpConnection.Stream.{accepted, WritesPart, Fails}
use mynuduo.TcpConnection.Keeps.{Extends, Extends-trans}
use mynuduo.TcpConnection.Drain.{Drained, handle_write-Drained}
use mynuduo.TcpConnection.Onward.{Onward, handle_write-Onward}
use mynuduo.MuduoServer.{reads, writes}
use mynuduo.MuduoServer.Relayed.{
  IsServing, Relayed, Allowed, CameUp, handle-Relayed, connect_established-CameUp,
}
use mynuduo.MuduoClient.{greeting}
use mynuduo.MuduoClient.Greets.{handle_read-Heard, Greeted, connect_established-Greeted}
use mynuduo.MuduoClient.Session.{
  Session, to_server, to_client, Turn, client_reads, client_writes, server_reads, server_writes,
  open_session, client_hears, server_gets, turn, turns,
}

-- What is left of `l` after `base`.
drop-Extends : (base l : List ℕ) → Extends base l → base ++ drop (length base) l ≡ l
drop-Extends [] l h = refl
drop-Extends (x ∷ base) [] (more, e) = absurd (cc)
drop-Extends (x ∷ base) (y ∷ l) (more, e) =
    let same : y ≡ x = cc in
    let rest : l ≡ base ++ more = cc in ap₂ ◌∷◌ (sym same) (drop-Extends base l (more, rest))

-- Some of it more.
Extends-take :
    (n : ℕ) (base l d : List ℕ)
    → Extends base l
    → take n (drop (length base) l) ≡ d
    → Extends (base ++ d) l
Extends-take n base l d h e = (
  drop n (drop (length base) l),
  sym (drop-Extends base l h)
      ∙ ap (◌++◌ base) (
          sym (take-append-drop n (drop (length base) l))
          ∙ ap (λ t. t ++ drop n (drop (length base) l)) e)
      ∙ sym (append_assoc base d (drop n (drop (length base) l))),
)

join : (xs ys zs rest : List ℕ) → xs ++ ys ≡ zs → xs ++ (ys ++ rest) ≡ zs ++ rest
join xs ys zs rest e = sym (append_assoc xs ys rest) ∙ ap (λ l. l ++ rest) e

module _ (k : Epoll) where
  -- Both connections are up and in order; the client has taken on the greeting, the server exactly what it
  -- has read; and each side has read some first part of what the other one's kernel has been given.
  pub record Joined (s : Session k) : Type 0 where
    pub client : IsServing k s.client
    pub server : IsServing k s.server
    pub said : accepted k s.client ≡ greeting
    pub relayed : accepted k s.server ≡ s.got
    pub out : Extends s.got s.client.sent
    pub back : Extends s.heard s.server.sent

  -- A connection that has sent and received nothing.
  pub record Fresh (w : Connection k) : Type 0 where
    pub inv : Inv k w
    pub new : is_disconnected w.state ≡ false
    pub empty : contents w.input ≡ []
    pub none_sent : accepted k w ≡ []

  -- The greeting is what the client has heard back, what is on its way back, what the server keeps, what
  -- is on its way there, and what the client keeps, in this order.
  abbrev pub Conserved : Session k → Type 0
  Conserved s =
      s.heard
        ++ (to_client k s
            ++ (contents s.server.output ++ (to_server k s ++ contents s.client.output)))
      ≡ greeting

  Joined-Conserved : (s : Session k) → Joined s → Conserved s
  Joined-Conserved s j =
      let kept = to_server k s ++ contents s.client.output in
      let heard = drop-Extends s.heard s.server.sent j.back in
      let got = drop-Extends s.got s.client.sent j.out in
      join s.heard (to_client k s) s.server.sent (contents s.server.output ++ kept) heard
      ∙ join s.server.sent (contents s.server.output) s.got kept j.relayed
      ∙ join s.got (to_server k s) s.client.sent (contents s.client.output) got
      ∙ j.said

  module _ (greets : List ℕ → WriteResult) (on_close : Connection k → Option (Connection k)) where
    -- The client has room for what it reads.
    abbrev pub MayHear : List ℕ → Session k → Type 0
    MayHear [] s = Unit {0}
    MayHear (x ∷ d) s =
        (length (x ∷ d) ≤ read_limit s.client.input)
        × (length s.client.input.bytes + extra_size ≤ max_size)

    -- The server may read and send back what it reads.
    abbrev pub MayGet : List ℕ → (List ℕ → WriteResult) → Session k → Type 0
    MayGet [] sys_write s = Unit {0}
    MayGet (x ∷ d) sys_write s = Allowed k (reads x d sys_write) s.server

    abbrev pub TurnAllowed : Turn k → Session k → Type 0
    TurnAllowed (client_reads n) s = MayHear (take (suc n) (to_client k s)) s
    TurnAllowed (client_writes sys_write) s = Unit {0}
    TurnAllowed (server_reads n sys_write) s = MayGet (take (suc n) (to_server k s)) sys_write s
    TurnAllowed (server_writes sys_write) s = Unit {0}

    -- Every event is allowed where the events before it have left the session.
    abbrev pub TurnsAllowed : List (Turn k) → Session k → Type 0
    TurnsAllowed [] s = Unit {0}
    TurnsAllowed (e ∷ es) s =
        TurnAllowed e s × IfReturns (TurnsAllowed es) (turn k greets on_close e s)

    client_hears-Joined :
        (d : List ℕ) (s : Session k)
        → Joined s
        → Extends (s.heard ++ d) s.server.sent
        → MayHear d s
        → Returns Joined (client_hears k greets on_close d s)
    unfolding client_hears
    client_hears-Joined [] s j e may = j
    client_hears-Joined (x ∷ d) s j e (short, grow) =
        Returns-bind Joined (Relayed k [] s.client) _ _
          (handle_read-Heard k greets on_close x d s.client j.client short grow)
          λ t h. record {
            client = h.serving;
            server = j.server;
            said = h.bytes ∙ append-nil (accepted k s.client) ∙ j.said;
            relayed = j.relayed;
            out = Extends-trans s.got s.client.sent t.sent j.out h.grows;
            back = e;
          }

    server_gets-Joined :
        (d : List ℕ) (sys_write : List ℕ → WriteResult) (s : Session k)
        → Joined s
        → Extends (s.got ++ d) s.client.sent
        → MayGet d sys_write s
        → Returns Joined (server_gets k greets on_close d sys_write s)
    unfolding server_gets
    server_gets-Joined [] sys_write s j e may = j
    server_gets-Joined (x ∷ d) sys_write s j e may =
        Returns-bind Joined (Relayed k (x ∷ (d ++ [])) s.server) _ _
          (handle-Relayed k on_close (reads x d sys_write) s.server j.server may)
          λ t h. record {
            client = j.client;
            server = h.serving;
            said = j.said;
            relayed = h.bytes ∙ ap₂ (λ l m. l ++ x ∷ m) j.relayed (append-nil d);
            out = e;
            back = Extends-trans s.heard s.server.sent t.sent j.back h.grows;
          }

    turn-Joined :
        (e : Turn k) (s : Session k)
        → Joined s
        → TurnAllowed e s
        → Returns Joined (turn k greets on_close e s)
    unfolding turn
    turn-Joined (client_reads n) s j may =
        let d = take (suc n) (to_client k s) in
        client_hears-Joined d s j (Extends-take (suc n) s.heard s.server.sent d j.back refl) may
    turn-Joined (server_reads n sys_write) s j may =
        let d = take (suc n) (to_server k s) in
        server_gets-Joined d sys_write s j (Extends-take (suc n) s.got s.client.sent d j.out refl)
          may
    turn-Joined (client_writes sys_write) s j may =
        Returns-bind Joined (λ t. Drained k s.client t × Onward k s.client t) _ _
          (Returns-also (Drained k s.client) (Onward k s.client) _
            (handle_write-Drained k sys_write s.client j.client.inv)
            (handle_write-Onward k sys_write s.client))
          λ t (h, o). record {
            client = record {
              inv = h.inv;
              up = ap is_connected h.state ∙ j.client.up;
              empty = ap contents h.input ∙ j.client.empty;
            };
            server = j.server;
            said = h.bytes ∙ j.said;
            relayed = j.relayed;
            out = Extends-trans s.got s.client.sent t.sent j.out o.sent;
            back = j.back;
          }
    turn-Joined (server_writes sys_write) s j may =
        Returns-bind Joined (Relayed k [] s.server) _ _
          (handle-Relayed k on_close (writes sys_write) s.server j.server tt)
          λ t h. record {
            client = j.client;
            server = h.serving;
            said = j.said;
            relayed = h.bytes ∙ append-nil (accepted k s.server) ∙ j.relayed;
            out = j.out;
            back = Extends-trans s.heard s.server.sent t.sent j.back h.grows;
          }

    turns-Joined :
        (es : List (Turn k)) (s : Session k)
        → Joined s
        → TurnsAllowed es s
        → Returns Joined (turns k greets on_close es s)
    unfolding turns
    turns-Joined [] s j may = j
    turns-Joined (e ∷ es) s j (now, later) =
        Returns-bind Joined (λ t. Joined t × TurnsAllowed es t) _ _
          (Returns-also Joined (TurnsAllowed es) _ (turn-Joined e s j now) later)
          λ t (h, may). turns-Joined es t h may

    -- The two connections as they come up, the server's with the buffers that it had.
    abbrev pub Started : Connection k → Session k → Type 0
    Started v s = Joined s × (s.server.input ≡ v.input) × (s.server.output ≡ v.output)

    pub open_session-Started :
        (client_self : ℕ) (w : Connection k) (server_self : ℕ) (v : Connection k)
        → Fresh w
        → Fresh v
        → WritesPart k greets
        → ¬ Fails k greets greeting
        → length greeting + w.output.writer ≤ max_size
        → Returns (Started v) (open_session k greets on_close client_self w server_self v)
    unfolding open_session
    open_session-Started client_self w server_self v fw fv part alive room =
        Returns-bind (Started v) (Greeted k w) _ _
          (connect_established-Greeted k greets on_close client_self w fw.inv fw.new fw.empty part
            alive room)
          λ c h.
            Returns-bind (Started v) (CameUp k v) _ _
              (connect_established-CameUp k greets on_close server_self v fv.inv fv.new fv.empty)
              λ s u. (
                record {
                  client = h.serving;
                  server = u.serving;
                  said = h.bytes ∙ ap (λ l. l ++ greeting) fw.none_sent;
                  relayed = u.bytes ∙ fv.none_sent;
                  out = (c.sent, refl);
                  back = (s.sent, refl);
                },
                u.input,
                u.output,
              )

    -- A client and a server, each with a connection in order that has sent and received nothing, where
    -- the kernel takes no more of the greeting than it is given and the peer has not gone: the
    -- connections come up, and after any sequence of reads and of room to write, on either side and in any
    -- order, each allowed where it comes, every handler has returned, and the greeting is what the client
    -- has heard back, what is on its way back, what the server keeps, what is on its way there and what
    -- the client keeps, in this order: no byte is lost, doubled or out of order, and the client hears the
    -- greeting once nothing is kept or on its way.
    pub turns-Conserved :
        (es : List (Turn k)) (client_self : ℕ) (w : Connection k) (server_self : ℕ)
        (v : Connection k)
        → Fresh w
        → Fresh v
        → WritesPart k greets
        → ¬ Fails k greets greeting
        → length greeting + w.output.writer ≤ max_size
        → IfReturns (TurnsAllowed es) (open_session k greets on_close client_self w server_self v)
        → Returns Conserved (do
          s ← open_session k greets on_close client_self w server_self v
          turns k greets on_close es s)
    turns-Conserved es client_self w server_self v fw fv part alive room may =
        Returns-bind Conserved (λ s. Started v s × TurnsAllowed es s) _ _
          (Returns-also (Started v) (TurnsAllowed es) _
            (open_session-Started client_self w server_self v fw fv part alive room) may)
          λ s (j, allowed).
            Returns-mono Joined Conserved _ (turns-Joined es s j.0 allowed) Joined-Conserved
