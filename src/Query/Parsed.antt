-- ===== src/Query/Parsed.antt =====
-- What api/query.py makes of the values in an answer: attributes, defines, call graphs and the errors of
-- models. `query` stands for PyreConnection.query_server.
use Prim.Native.String
use pyre_check.Json.{Json}
use pyre_check.Query.Answers.{Queried, item, iterate, is_in, items, first_item}
use pyre_check.Base.{Dict, List, ok, ◌>>=◌, map_ok, if◌then◌else◌, String}

pub record Attributes : Type 0 where
  pub name : Json
  pub annotation : Json

pub record DefineParameter : Type 0 where
  pub name : Json
  pub annotation : Json

pub record Define : Type 0 where
  pub name : Json
  pub parameters : List DefineParameter
  pub return_annotation : Json

pub record Position : Type 0 where
  pub line : Json
  pub column : Json

pub record Location : Type 0 where
  pub path : Json
  pub start : Position
  pub stop : Position

pub record CallGraphTarget : Type 0 where
  pub target : Json
  pub kind : Json
  pub locations : List Location

unfoldable pub parse_position : Json → Queried Position
unfolding item
parse_position position_json = do
  line ← item "line" position_json
  column ← item "column" position_json
  ok record { line = line; column = column }

unfoldable pub parse_location : Json → Queried Location
unfolding parse_position
parse_location location_json = do
  path ← item "path" location_json
  start ← item "start" location_json >>= parse_position
  stop ← item "stop" location_json >>= parse_position
  ok record { path = path; start = start; stop = stop }

-- CallGraphTarget.__init__
unfoldable pub call_graph_target : Json → Queried CallGraphTarget
unfolding is_in item parse_location
call_graph_target call = do
  named ← is_in "target" call
  target ← item (if named then "target" else "direct_target") call
  kind ← item "kind" call
  locations ← item "locations" call >>= iterate
  parsed ← map_ok parse_location locations
  ok record { target = target; kind = kind; locations = parsed }

unfoldable pub parse_attributes : Json → Queried (List Attributes)
unfolding iterate item
parse_attributes attributes =
    iterate attributes
    >>= map_ok (λ attribute. do
      name ← item "name" attribute
      annotation ← item "annotation" attribute
      ok record { name = name; annotation = annotation })

parse_parameter : Json → Queried DefineParameter
unfolding item
parse_parameter parameter = do
  name ← item "name" parameter
  annotation ← item "annotation" parameter
  ok record { name = name; annotation = annotation }

unfoldable pub parse_define : Json → Queried Define
unfolding iterate item parse_parameter
parse_define element = do
  name ← item "name" element
  parameters ← item "parameters" element >>= iterate
  parsed ← map_ok parse_parameter parameters
  return_annotation ← item "return_annotation" element
  ok record { name = name; parameters = parsed; return_annotation = return_annotation }

module _ (query : String → Queried Json) where
  unfoldable pub get_superclasses : String → Queried Json
  unfolding item first_item
  get_superclasses class_name =
      query (String.◌++◌ "superclasses(" (String.◌++◌ class_name ")"))
      >>= item "response"
      >>= first_item
      >>= item class_name

  unfoldable pub get_class_attributes : String → Queried (List Attributes)
  unfolding item parse_attributes
  get_class_attributes class_name =
      query (String.◌++◌ "attributes(" (String.◌++◌ class_name ")"))
      >>= item "response"
      >>= item "attributes"
      >>= parse_attributes

  -- A function that is named twice keeps its later calls.
  unfoldable pub get_call_graph : Queried (Dict (List CallGraphTarget))
  unfolding item items iterate call_graph_target
  get_call_graph = do
    response ← query "dump_call_graph()" >>= item "response"
    functions ← items response
    map_ok
        (λ (entry : String × Json). do
          calls ← iterate entry.1
          targets ← map_ok call_graph_target calls
          ok (entry.0, targets))
        functions
