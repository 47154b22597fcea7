-- ===== src/Copies/Outside.antt =====
-- The types of k8s.io/apimachinery that the resources hold, each with its deep copy: parameters, of
-- which only what their documentation says is assumed, that `DeepCopy` makes a deep copy.
use k8s_native_fast_gpu_chec.Copies.{Copier}

pub record Outside (Cell : Type 0) : Type 1 where
  -- Two strings.
  pub TypeMeta : Type 0
  pub ObjectMeta : Type 0
  pub object_meta : Copier Cell ObjectMeta
  pub ListMeta : Type 0
  pub list_meta : Copier Cell ListMeta
  -- `*metav1.Time`, not nil.
  pub TimePointer : Type 0
  pub time : Copier Cell TimePointer
  pub Condition : Type 0
  pub condition : Copier Cell Condition
  pub zero_condition : Condition
  -- `*metav1.LabelSelector`, not nil.
  pub SelectorPointer : Type 0
  pub selector : Copier Cell SelectorPointer
