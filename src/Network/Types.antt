-- ===== src/Network/Types.antt =====
-- The data of `TransportNetwork`: inc/network-monitor/TransportNetwork.h. A node is never replaced
-- once it is in `stations_`, so the pointer to it is its id. A route does not change once it is
-- made, so the pointer to it is its contents with an address, by which such pointers are compared.
use live_transport_network_m.Base.{
  ℕ, Option, none, some, List, [], Bytes, bytes_eq, nat_eq, ℤ, lookup, assign, Assoc,
}

abbrev pub Ident : Type 0
Ident = Bytes

pub record Station : Type 0 where
  pub id : Ident
  pub name : Bytes

pub record Route : Type 0 where
  pub id : Ident
  pub direction : Bytes
  pub line_id : Ident
  pub start_station_id : Ident
  pub end_station_id : Ident
  pub stops : List Ident

pub record Line : Type 0 where
  pub id : Ident
  pub name : Bytes
  pub routes : List Route

pub data EventType : Type 0 where
  in_ out : EventType

pub record PassengerEvent : Type 0 where
  pub station_id : Ident
  pub type : EventType

-- The pointer to a node.
abbrev pub Node : Type 0
Node = Ident

pub record RouteInternal : Type 0 where
  pub address : ℕ
  pub id : Ident
  pub line : Ident
  pub stops : List Node

pub record GraphEdge : Type 0 where
  pub address : ℕ
  pub route : RouteInternal
  pub next_stop : Node
  pub travel_time : ℕ

pub record GraphNode : Type 0 where
  pub id : Ident
  pub name : Bytes
  pub passenger_count : ℤ
  pub edges : List GraphEdge

pub record LineInternal : Type 0 where
  pub id : Ident
  pub name : Bytes
  pub routes : Assoc Ident RouteInternal

-- `fresh` is the address that the next object will have.
pub record TransportNetwork : Type 0 where
  pub stations : Assoc Ident GraphNode
  pub lines : Assoc Ident LineInternal
  pub fresh : ℕ

abbrev pub empty : TransportNetwork
empty = record { stations = []; lines = []; fresh = 0 }

-- How a call ends: with a result, by `std::runtime_error`, or with behaviour that C++ does not
-- define.
pub data Result {ℓ} (A : Type ℓ) : Type ℓ where
  returns : A → Result A
  throws : Bytes → Result A
  undefined : Result A

infixl 5 ◌>>=◌
abbrev pub ◌>>=◌ {ℓ κ} : {A : Type ℓ} {B : Type κ} → Result A → (A → Result B) → Result B
returns a >>= f = f a
throws e >>= f = throws e
undefined >>= f = undefined

unfoldable pub get_station : Ident → TransportNetwork → Option GraphNode
get_station id n = lookup id n.stations

unfoldable pub get_line : Ident → TransportNetwork → Option LineInternal
get_line id n = lookup id n.lines

unfoldable pub get_route : Ident → Ident → TransportNetwork → Option RouteInternal
get_route line route n = elim (get_line line n) [ none ↦ none | some l ↦ lookup route l.routes ]

-- A write through the pointer to a node.
unfoldable pub set_node : Node → GraphNode → TransportNetwork → TransportNetwork
set_node a node n = record n { stations = assign a node n.stations }
