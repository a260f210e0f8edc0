-- ===== src/Domain/Defs.antt =====
-- internal/domain/city.go, driver.go, order.go and event.go: the types.
use dispatch_lab.Prelude.{ℕ, String, Bool, List}

pub record Node (F : Type 0) : Type 0 where
  pub id : String
  pub x : F
  pub y : F

pub record Edge (F : Type 0) : Type 0 where
  pub id : String
  pub from : String
  pub to : String
  pub weight : F
  pub closed : Bool

-- `edges` is in adjacency-list form: from a node, the outgoing edges.
pub record City (F : Type 0) : Type 0 where
  pub id : String
  pub version : ℕ
  pub nodes : List (String × Node F)
  pub edges : List (String × List (Edge F))

pub data DriverStatus : Type 0 where
  idle assigned en_route_to_pickup delivering unavailable : DriverStatus

pub data OrderStatus : Type 0 where
  pending assigned en_route delivered unassignable : OrderStatus

-- `route_index` is the position of `position` within `route`; an empty `assigned_order` is none.
pub record Driver (F : Type 0) : Type 0 where
  pub id : String
  pub position : String
  pub status : DriverStatus
  pub route : List String
  pub route_index : ℕ
  pub assigned_order : String
  pub idle_since : F
  pub route_progress : F

pub record Order (F : Type 0) : Type 0 where
  pub id : String
  pub pickup : String
  pub destination : String
  pub created_at : F
  pub status : OrderStatus
  pub assigned_driver : String

pub data EventType : Type 0 where
  simulation_snapshot order_placed order_assigned order_unassignable order_delivered : EventType
  driver_position_updated driver_status_changed route_computed route_invalidated : EventType
  road_closed road_reopened simulation_paused simulation_speed_changed : EventType
