-- ===== src/Mouse/Area.antt =====
-- Where a mouse event lies on the device (`convertToDeviceCoordinates`).
use ms_robot.Mouse.{Point}
use ms_robot.Number.{Number}
use ms_robot.Control.Device.{clamp}
use ms_robot.Session.{ScreenSize}
use ms_robot.Base.Int.{ℤ, pos}
use ms_robot.Base.{ℕ, if◌then◌else◌}

-- The area of the video element on the page.
pub record Rect (Num : Type 0) : Type 0 where
  pub left : Num
  pub top : Num
  pub width : Num
  pub height : Num

module _ (F : Number) where
  open F use {Num, of_int, sub, mul, div, less, round}

  -- One axis: the client position relative to the picture, scaled to the device and clamped.
  axis : Num → Num → Num → Num → ℕ → ℤ
  axis client start offset display size =
      clamp (round (mul (div (sub (sub client start) offset) display) (of_int (pos size)))) size

  -- The picture keeps its aspect within the element: bars above and below, or left and right.
  unfoldable pub convert_to_device_coordinates : Rect Num → ScreenSize → Num → Num → Point
  unfolding axis
  convert_to_device_coordinates rect size client_x client_y =
      let video_aspect = div (of_int (pos size.width)) (of_int (pos size.height)) in
      let container_aspect = div rect.width rect.height in
      let two = of_int (pos 2) in
      let wide_height = div rect.width video_aspect in
      let tall_width = mul rect.height video_aspect in
      if less container_aspect video_aspect
      then record {
        x = axis client_x rect.left (of_int (pos 0)) rect.width size.width;
        y = axis client_y rect.top (div (sub rect.height wide_height) two) wide_height size.height;
      }
      else record {
        x = axis client_x rect.left (div (sub rect.width tall_width) two) tall_width size.width;
        y = axis client_y rect.top (of_int (pos 0)) rect.height size.height;
      }
