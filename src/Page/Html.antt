-- ===== src/Page/Html.antt =====
-- What React components give back: elements with attributes and listeners. A listener is the message
-- that it sends; fixed styles are left out.
use task.Prelude.{String, Bool, false, List, [], ◌∷◌, ◌++◌, ◌||◌, if◌then◌else◌}
use task.Prelude.Text.{Text}

pub data Attribute (M : Type 0) : Type 0 where
  attr : String → Text → Attribute M
  disabled : Bool → Attribute M
  on_click on_submit : M → Attribute M
  on_change : (Text → M) → Attribute M
  stop_propagation : Attribute M

mutual
  pub data Html (M : Type 0) : Type 0 where
    text : Text → Html M
    element : String → List (Attribute M) → Nodes M → Html M

  pub data Nodes (M : Type 0) : Type 0 where
    leaf : Nodes M
    child : Html M → Nodes M → Nodes M

module _ {M : Type 0} where
  abbrev pub list : List (Html M) → Nodes M
  list [] = leaf
  list (h ∷ hs) = child h (list hs)

  abbrev is_disabled : List (Attribute M) → Bool
  is_disabled [] = false
  is_disabled (disabled b ∷ attrs) = b || is_disabled attrs
  is_disabled (_ ∷ attrs) = is_disabled attrs

  abbrev listeners : List (Attribute M) → List M
  listeners [] = []
  listeners (on_click m ∷ attrs) = m ∷ listeners attrs
  listeners (_ ∷ attrs) = listeners attrs

  abbrev own_clicks : List (Attribute M) → List M
  own_clicks attrs = if is_disabled attrs then [] else listeners attrs

  -- The messages that a click somewhere in the page can send, in the order of the page.
  unfoldable mutual
    pub clicks : Html M → List M
    clicks (text t) = []
    clicks (element tag attrs children) = own_clicks attrs ++ all_clicks children

    pub all_clicks : Nodes M → List M
    all_clicks leaf = []
    all_clicks (child h rest) = clicks h ++ all_clicks rest
