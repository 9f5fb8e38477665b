-- ===== src/Model/Layout.antt =====
-- The widgets of include/tinia/model/GUILayout.hpp: one constructor for each class, or for a family
-- of classes that differ in nothing but their type. A child is a pointer, which may be null.
-- What only the client reads (labels, padding, the scripts of a Canvas) is left out.
use tinia.Prelude.{ℕ, String, Bool}

pub record Attributes : Type 0 where
  pub visibility_key : String
  pub visibility_inverted : Bool
  pub enabled_key : String
  pub enabled_inverted : Bool

pub record KeyValue : Type 0 where
  pub key : String
  pub show_value : Bool

-- The classes that are an Element and a KeyValue and no more.
pub data Widget : Type 0 where
  text_input canvas label combo_box radio_buttons spin_box check_box button horizontal_slider
        double_spin_box file_dialog_button :
      Widget

pub data Space : Type 0 where
  vertical horizontal vertical_expanding horizontal_expanding : Space

mutual
  pub data Element : Type 0 where
    tab_layout horizontal_layout vertical_layout : Attributes → Children → Element
    -- height, width, and child(i, j) row after row
    grid : Attributes → ℕ → ℕ → Children → Element
    tab element_group popup_button : Attributes → KeyValue → Child → Element
    widget : Widget → Attributes → KeyValue → Element
    space : Space → Attributes → Element

  pub data Child : Type 0 where
    null : Child
    child : Element → Child

  pub data Children : Type 0 where
    nil : Children
    cons : Child → Children → Children
